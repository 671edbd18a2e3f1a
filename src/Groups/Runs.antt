-- ===== src/Groups/Runs.antt =====
-- The groups under any sequence of joins, leaves and ends of connections, against the set of pairs of a group
-- and a member that they stand for.
use cd_praticas.Prelude.{
  ℕ, ◌≡◌, refl, sym, ◌∙◌, true, ◌&&◌, List, [], ◌∷◌, if◌then◌else◌, Option, some, ◌==◌, ◌>>=◌,
}
use mathlib.Core.Path.{subst}
use cd_praticas.Configuration.{same_name}
use cd_praticas.Groups.State.{Groups, World}
use cd_praticas.Groups.Handlers.{is_running, locate, handle_join, handle_leave, handle_kill}
use cd_praticas.Groups.Counts.{listed}
use cd_praticas.Groups.Valid.{IsValid}
use cd_praticas.Groups.Joining.{handle_join-HasJoined}
use cd_praticas.Groups.Killing.{handle_kill-HasLeft}
use cd_praticas.Groups.Leaving.{handle_leave-HasLeft}

-- What `Sess_deliver_message` calls: the member, and the group where there is one.
pub data Call : Type 0 where
  join : List ℕ → List ℕ → Call
  leave : List ℕ → List ℕ → Call
  kill : List ℕ → Call

unfoldable pub call : World → Call → Groups → Option Groups
call w (join m group) s = handle_join w m group s
call w (leave m group) s = handle_leave w m group s
call w (kill m) s = handle_kill w m s

unfoldable pub run : World → List Call → Groups → Option Groups
run w [] s = some s
run w (c ∷ cs) s = call w c s >>= run w cs

-- A set of pairs: 1 for a member of the group, 0 for any other name.
abbrev pub Memberships : Type 0
Memberships = List ℕ → List ℕ → ℕ

-- What a call does to the set.
unfoldable pub call_on : Call → Memberships → Memberships
call_on (join m group) f h n = if same_name group h && same_name m n then 1 else f h n
call_on (leave m group) f h n = if same_name group h && same_name m n then 0 else f h n
call_on (kill m) f h n = if same_name m n then 0 else f h n

unfoldable pub replay : List Call → Memberships → Memberships
replay [] f = f
replay (c ∷ cs) f = replay cs (call_on c f)

abbrev member_of : Call → List ℕ
member_of (join m group) = m
member_of (leave m group) = m
member_of (kill m) = m

-- The member's name is legal and its daemon known, and there is a session if the daemon is the own one.
pub record IsLegal (w : World) (m : List ℕ) : Type 0 where
  pub private : List ℕ
  pub id : ℕ
  pub located : locate w m ≡ some (private, some id)
  pub session : (id == w.my_id) ≡ true → (box : ℕ) × (w.session private ≡ some box)

abbrev pub AllLegal : World → List Call → Type 0
AllLegal w [] = Unit {0}
AllLegal w (c ∷ cs) = IsLegal w (member_of c) × AllLegal w cs

-- The calls return, in a state that fulfils the invariant and lists the members of the set `f`.
pub record Refines (w : World) (f : Memberships) (r : Option Groups) : Type 0 where
  pub state : Groups
  pub returns : r ≡ some state
  pub running : is_running state.gstate ≡ true
  pub valid : IsValid w state
  pub lists : (h n : List ℕ) → listed h n state ≡ f h n

call-Refines :
    (w : World) (c : Call) (s : Groups)
    → IsValid w s
    → is_running s.gstate ≡ true
    → IsLegal w (member_of c)
    → Refines w (call_on c (λ h n. listed h n s)) (call w c s)
unfolding call call_on
call-Refines w (join m group) s v running l =
    let j = handle_join-HasJoined w m group l.private l.id s v running l.located l.session in
    record {
      state = j.state;
      returns = j.returns;
      running = subst (λ z. is_running z ≡ true) (sym j.same) running;
      valid = j.valid;
      lists = j.lists;
    }
call-Refines w (leave m group) s v running l =
    let j = (handle_leave-HasLeft w m group l.private l.id s v running l.located l.session).0 in
    record {
      state = j.state;
      returns = j.returns;
      running = subst (λ z. is_running z ≡ true) (sym j.same) running;
      valid = j.valid;
      lists = j.lists;
    }
call-Refines w (kill m) s v running l =
    let j = handle_kill-HasLeft w m l.private l.id s v running l.located l.session in
    record {
      state = j.state;
      returns = j.returns;
      running = subst (λ z. is_running z ≡ true) (sym j.same) running;
      valid = j.valid;
      lists = j.lists;
    }

call_on-eq :
    (c : Call) (f f' : Memberships)
    → ((h n : List ℕ) → f h n ≡ f' h n)
    → (h n : List ℕ) → call_on c f h n ≡ call_on c f' h n
unfolding call_on
call_on-eq (join m group) f f' e h n = rw (e h n) refl
call_on-eq (leave m group) f f' e h n = rw (e h n) refl
call_on-eq (kill m) f f' e h n = rw (e h n) refl

-- From any state in GOP or GTRANS that fulfils the invariant, every sequence of joins, leaves and ends of connections
-- of legal members runs without a fatal alarm, keeps the invariant, and leaves the groups with just the
-- members that the same sequence leaves in a set of pairs: a join puts the pair in, a leave takes it out,
-- and the end of a connection takes out all pairs of the member.
pub run-Refines :
    (w : World) (cs : List Call) (s : Groups) (f : Memberships)
    → IsValid w s
    → is_running s.gstate ≡ true
    → AllLegal w cs
    → ((h n : List ℕ) → listed h n s ≡ f h n)
    → Refines w (replay cs f) (run w cs s)
unfolding run replay
run-Refines w [] s f v running legal lists = record {
  state = s;
  returns = refl;
  running = running;
  valid = v;
  lists = lists;
}
run-Refines w (c ∷ cs) s f v running legal lists =
    let one = call-Refines w c s v running legal.0 in
    let rest =
      run-Refines w cs one.state (call_on c f) one.valid one.running legal.1
        (λ h n. one.lists h n ∙ call_on-eq c (λ a b. listed a b s) f lists h n) in
    record {
      state = rest.state;
      returns = rw one.returns rest.returns;
      running = rest.running;
      valid = rest.valid;
      lists = rest.lists;
    }
