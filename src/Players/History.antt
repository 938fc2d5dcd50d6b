-- ===== src/Players/History.antt =====
-- The loop of `main` on the reports of media players, and its end.
use framework_kmod.Base.{
  &&_both, Bool, Bool-cases, List, Option, [], ap, codes, false, if◌then◌else◌, inl, inr, map, none,
  refl, some, subst, sym, take, take-take, true, ℕ, ◌&&◌, ◌++◌, ◌∙◌, ◌∷◌, ◌≡◌, ◌⊎◌,
}
use framework_kmod.Signal.{Argument, string, Message, zeroed, namelen, makeupper, parse_signal}
use framework_kmod.Signal.Mpris.{allowed, text_of, last_text, changed, read, parse_signal-read}
use framework_kmod.Players.{
  Player, Helper, Event, popped, signalled, sigfunc, clear_players, rm_player, turn, main_loop,
  choose_handler, unless_exit,
}
use framework_kmod.Players.Playing.{lookup, IsDistinct, named, lookup_eq, same_upto_eq}
use framework_kmod.Players.Notices.{Status, playing, paused, stopped, word, told, Told, Done}
use framework_kmod.Players.Handled.{notice, choose_handler-Told, named-take}

abbrev pub value : Status → List ℕ
value playing = codes "Playing"
value paused = codes "Paused"
value stopped = codes "Stopped"

-- A signal whose last changed property is the playback status.
pub record Report : Type 0 where
  pub header : Message
  pub iface : List ℕ
  pub before : List (List ℕ × Argument)
  pub gone : List (List ℕ)
  pub status : Status

abbrev pub props : Report → List (List ℕ × Argument)
props r = r.before ++ (codes "PlaybackStatus", string (value r.status)) ∷ []

abbrev pub message : Report → Message
message r = record (r.header) {
  is_properties_changed = true;
  args = changed r.iface (props r) r.gone;
}

abbrev pub event : Report → Event
event r = popped true (some (message r))

last_text_end :
    (s k t : List ℕ) (es : List (List ℕ × Argument))
    → last_text s (es ++ (k, string t) ∷ []) ≡ makeupper (take namelen t)
last_text_end s k t [] = refl
last_text_end s k t ((key, v) ∷ es) = last_text_end (text_of s v) k t es

upper_value : (st : Status) → makeupper (take namelen (value st)) ≡ word st
unfolding makeupper
upper_value playing = refl
upper_value paused = refl
upper_value stopped = refl

read_status : (r : Report) → last_text [] (props r) ≡ word r.status
read_status r =
    last_text_end [] (codes "PlaybackStatus") (value r.status) r.before ∙ upper_value r.status

parsed_lem :
    (r : Report)
    → allowed (props r) ≡ true
    → (parse_signal (message r) zeroed).1 ≡ notice (read r.header r.iface (props r)) r.status
parsed_lem r h =
    ap (λ x. x.1)
      (parse_signal-read (record (r.header) { is_properties_changed = true }) r.iface (props r)
        r.gone h)
    ∙ ap (λ u. record (read r.header r.iface (props r)) { playback_status = u }) (read_status r)

turn_lem :
    (r : Report) (s : Helper)
    → allowed (props r) ≡ true
    → IsDistinct s.players
    → Done (Told (take namelen r.iface) r.status s.players s) (turn true (some (message r)) s)
unfolding turn
turn_lem r s h d =
    subst (λ x. Done (Told (take namelen r.iface) r.status s.players s) (choose_handler true x s))
      (sym (parsed_lem r h)) (choose_handler-Told (read r.header r.iface (props r)) r.status s d)

-- The entry of the name `m` after these reports.
abbrev pub entry_after : List ℕ → List Report → Option ℕ → Option ℕ
entry_after m [] e = e
entry_after m (r ∷ rs) e = entry_after m rs (if named r.iface m then told r.status e else e)

-- No value of a changed property is deeper than D-Bus allows.
abbrev pub all_allowed : List Report → Bool
all_allowed [] = true
all_allowed (r ∷ rs) = allowed (props r) && all_allowed rs

abbrev pub events_of : List Report → List Event
events_of rs = map event rs

-- What the reports `rs` make of the helper `s`, which is `t` afterwards.
pub record After (rs : List Report) (s t : Helper) : Type 0 where
  pub distinct : IsDistinct t.players
  pub entries : (m : List ℕ) → lookup m t.players ≡ entry_after m rs (lookup m s.players)
  pub active : t.active ≡ true

pub Done-map :
    (P Q : Helper → Type 0) (o : Option Helper) → ((t : Helper) → P t → Q t) → Done P o → Done Q o
Done-map P Q none f d = d
Done-map P Q (some t) f d = f t d

entry_eq :
    (m : List ℕ) (r : Report) (ps : List Player)
    → (if named (take namelen r.iface) m
        then told r.status (lookup (take namelen r.iface) ps)
        else lookup m ps)
      ≡ (if named r.iface m then told r.status (lookup m ps) else lookup m ps)
entry_eq m r ps = elim (Bool-cases (named r.iface m)) [
  | inl y ↦
      rw (named-take r.iface m, y)
        (ap (told r.status) (
          lookup_eq (take namelen r.iface) m ps
            (take-take namelen r.iface ∙ same_upto_eq r.iface m y)))
  | inr z ↦ rw (named-take r.iface m, z) refl
]

next_lem :
    (r : Report) (rs : List Report) (s t u : Helper)
    → Told (take namelen r.iface) r.status s.players s t
    → After rs t u
    → After (r ∷ rs) s u
next_lem r rs s t u d a = record {
  distinct = a.distinct;
  entries = λ m. a.entries m ∙ ap (entry_after m rs) (d.entries m ∙ entry_eq m r s.players);
  active = a.active;
}

chain_lem :
    (r : Report) (rs : List Report) (s : Helper) (o : Option Helper)
    → s.active ≡ true
    → ((t : Helper)
        → IsDistinct t.players
        → t.active ≡ true
        → Done (After rs t) (main_loop (events_of rs) t))
    → Done (Told (take namelen r.iface) r.status s.players s) o
    → Done (After (r ∷ rs) s) (unless_exit o (main_loop (events_of rs)))
unfolding unless_exit
chain_lem r rs s none a ih d = d
chain_lem r rs s (some t) a ih d =
    Done-map (After rs t) (After (r ∷ rs) s) (main_loop (events_of rs) t)
      (λ u. next_lem r rs s t u d) (ih t d.distinct (d.active ∙ a))

running {ℓ} : {A : Type ℓ} {b : Bool} (x y : A) → b ≡ true → (if b then x else y) ≡ x
running x y h = rw h refl

-- After any reports of players (signals of which the last changed property is the playback status,
-- and values of any type before it, of at most 64 containers in one another), with memory for `malloc`, an active helper is still running, has at most one entry for each
-- name, and the entry of every name is what that name's reports, one after the other, make of the
-- entry before.
pub main_loop-entries :
    (rs : List Report) (s : Helper)
    → all_allowed rs ≡ true
    → IsDistinct s.players
    → s.active ≡ true
    → Done (After rs s) (main_loop (events_of rs) s)
unfolding main_loop
main_loop-entries [] s h d a = record { distinct = d; entries = λ m. refl; active = a }
main_loop-entries (r ∷ rs) s h d a =
    let f = &&_both (allowed (props r)) (all_allowed rs) h in
    subst (Done (After (r ∷ rs) s)) (sym (running _ _ a)) (
      chain_lem r rs s (turn true (some (message r)) s) a (λ t. main_loop-entries rs t f.1)
        (turn_lem r s f.0 d))

clear_lem : (ps : List Player) → clear_players ps ≡ []
unfolding clear_players rm_player
clear_lem [] = refl
clear_lem (p ∷ ps) = clear_lem ps

-- After SIGINT or SIGTERM the turn that is next ends the loop, whatever message it would get: the
-- program frees every player, prints nothing more, and looks at no later message.
pub main_loop_quits :
    (signum : ℕ) (room : Bool) (msg : Option Message) (es : List Event) (s : Helper)
    → (signum ≡ 2) ⊎ (signum ≡ 15)
    → main_loop (signalled signum ∷ popped room msg ∷ es) s
      ≡ some (record s { players = []; active = false })
unfolding main_loop sigfunc
main_loop_quits signum room msg es s (inl h) = rw (h, clear_lem s.players) refl
main_loop_quits signum room msg es s (inr h) = rw (h, clear_lem s.players) refl
