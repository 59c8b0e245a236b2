-- ===== src/Net/Session/Live.antt =====
-- A request over a run of a session, whatever other steps come between its own.
use mathlib.Core.Path.{subst}
use sm.Base.{
  ℕ, suc, ◌≤◌, ◌≡◌, refl, ◌∙◌, Bool, true, false, not, ◌&&◌, Option, none, some, List, [], ◌∷◌,
  arith,
}
use sm.Net.Router.{Signal, pending, fired, NMessage}
use sm.Net.Session.{Setting, awaits_sent, awaits_rep, responded, unsent, Session, runs, Event, run}
use sm.Net.Session.Refine.{
  Request, outstanding, ended, view, go_on, advance, Input, asked, refused, told, answered, resumed,
  other,
}
use sm.Net.Session.Run.{inputs, advances, view-run}

-- The first report of the sending, and the first message with the request's number.
abbrev pub signal_of : {V : Type 0} → Option V → Option (Signal V)
signal_of none = some pending
signal_of (some v) = some (fired v)

abbrev pub hear_told : Input → Option Bool → Option Bool
hear_told (told flag) none = some flag
hear_told x t = t

abbrev pub hear_answer : Input → Option NMessage → Option NMessage
hear_answer (answered msg) none = some msg
hear_answer x a = a

abbrev pub first_told : List Input → Option Bool → Option Bool
first_told [] t = t
first_told (x ∷ xs) t = first_told xs (hear_told x t)

abbrev pub first_answer : List Input → Option NMessage → Option NMessage
first_answer [] a = a
first_answer (x ∷ xs) a = first_answer xs (hear_answer x a)

-- The number is not asked for again.
abbrev pub is_asking : Input → Bool
is_asking asked = true
is_asking refused = true
is_asking x = false

abbrev pub never_asked : List Input → Bool
never_asked [] = true
never_asked (x ∷ xs) = not (is_asking x) && never_asked xs

-- What a request is once its sending was reported and its response came, or not.
pub data Later : Option Bool → Option NMessage → Request → Type 0 where
  waits_sent :
      (t : Option Bool) (a : Option NMessage)
      → Later t a (outstanding awaits_sent (signal_of t) (signal_of a))
  waits_rep :
      (a : Option NMessage)
      → Later (some true) a (outstanding awaits_rep (some (fired true)) (signal_of a))
  got_rep : (msg : NMessage) → Later (some true) (some msg) (ended (responded msg.1))
  not_sent : (a : Option NMessage) → Later (some false) a (ended unsent)

Later-advance :
    (t : Option Bool) (a : Option NMessage) (q : Request) (x : Input)
    → is_asking x ≡ false
    → Later t a q
    → Later (hear_told x t) (hear_answer x a) (advance x q)
unfolding advance go_on
Later-advance t a q asked h l = cc
Later-advance t a q refused h l = cc
Later-advance _ _ _ (told flag) h (waits_sent none a) = waits_sent (some flag) a
Later-advance _ _ _ (told flag) h (waits_sent (some g) a) = waits_sent (some g) a
Later-advance _ _ _ (answered msg) h (waits_sent t none) = waits_sent t (some msg)
Later-advance _ _ _ (answered msg) h (waits_sent t (some m)) = waits_sent t (some m)
Later-advance _ _ _ resumed h (waits_sent none a) = waits_sent none a
Later-advance _ _ _ resumed h (waits_sent (some true) a) = waits_rep a
Later-advance _ _ _ resumed h (waits_sent (some false) a) = not_sent a
Later-advance _ _ _ other h (waits_sent t a) = waits_sent t a
Later-advance _ _ _ (told flag) h (waits_rep a) = waits_rep a
Later-advance _ _ _ (answered msg) h (waits_rep none) = waits_rep (some msg)
Later-advance _ _ _ (answered msg) h (waits_rep (some m)) = waits_rep (some m)
Later-advance _ _ _ resumed h (waits_rep none) = waits_rep none
Later-advance _ _ _ resumed h (waits_rep (some m)) = got_rep m
Later-advance _ _ _ other h (waits_rep a) = waits_rep a
Later-advance _ _ _ (told flag) h (got_rep m) = got_rep m
Later-advance _ _ _ (answered msg) h (got_rep m) = got_rep m
Later-advance _ _ _ resumed h (got_rep m) = got_rep m
Later-advance _ _ _ other h (got_rep m) = got_rep m
Later-advance _ _ _ (answered msg) h (not_sent none) = not_sent (some msg)
Later-advance _ _ _ (answered msg) h (not_sent (some m)) = not_sent (some m)
Later-advance _ _ _ (told flag) h (not_sent a) = not_sent a
Later-advance _ _ _ resumed h (not_sent a) = not_sent a
Later-advance _ _ _ other h (not_sent a) = not_sent a

Later-advances :
    (xs : List Input) (t : Option Bool) (a : Option NMessage) (q : Request)
    → never_asked xs ≡ true
    → Later t a q
    → Later (first_told xs t) (first_answer xs a) (advances xs q)
Later-advances [] t a q h l = l
Later-advances (x ∷ xs) t a q h l =
    Later-advances xs (hear_told x t) (hear_answer x a) (advance x q) (ground arith)
      (Later-advance t a q x (ground arith) l)

-- How often its coroutine goes on.
abbrev pub resumptions : List Input → ℕ
resumptions [] = 0
resumptions (resumed ∷ xs) = suc (resumptions xs)
resumptions (x ∷ xs) = resumptions xs

-- How often the coroutine of a request that has everything must still go on.
abbrev pub left : Request → ℕ
left (outstanding awaits_sent is_sent rep) = 2
left (outstanding awaits_rep is_sent rep) = 1
left q = 0

hear_told-some : (x : Input) (flag : Bool) → hear_told x (some flag) ≡ some flag
hear_told-some x flag = ground arith

hear_answer-some : (x : Input) (msg : NMessage) → hear_answer x (some msg) ≡ some msg
hear_answer-some x msg = ground arith

left_falls :
    (x : Input) (xs : List Input) (msg : NMessage) (q : Request)
    → Later (some true) (some msg) q
    → is_asking x ≡ false
    → left q ≤ resumptions (x ∷ xs)
    → left (advance x q) ≤ resumptions xs
unfolding advance go_on
left_falls x xs msg _ (waits_sent _ _) h k = ground arith
left_falls x xs msg _ (waits_rep _) h k = ground arith
left_falls x xs msg _ (got_rep _) h k = ground arith

ready_ends :
    (xs : List Input) (msg : NMessage) (q : Request)
    → Later (some true) (some msg) q
    → never_asked xs ≡ true
    → left q ≤ resumptions xs
    → advances xs q ≡ ended (responded msg.1)
ready_ends [] msg _ (waits_sent _ _) h k = absurd (omega arith)
ready_ends [] msg _ (waits_rep _) h k = absurd (omega arith)
ready_ends [] msg _ (got_rep _) h k = refl
ready_ends (x ∷ xs) msg q l h k =
    ready_ends xs msg (advance x q)
      (subst (λ a. Later (some true) a (advance x q)) (hear_answer-some x msg)
        (subst (λ t. Later t (hear_answer x (some msg)) (advance x q)) (hear_told-some x true)
          (Later-advance (some true) (some msg) q x (ground arith) l)))
      (ground arith) (left_falls x xs msg q l (ground arith) k)

ready-left : (msg : NMessage) (q : Request) → Later (some true) (some msg) q → left q ≤ 2
ready-left msg _ (waits_sent _ _) = omega arith
ready-left msg _ (waits_rep _) = omega arith
ready-left msg _ (got_rep _) = omega arith

fresh_Later : Later none none (outstanding awaits_sent (some pending) (some pending))
fresh_Later = waits_sent none none

Later-in_run :
    (c : Setting) (n : ℕ) (es : List Event) (s s' : Session)
    → view c n s ≡ outstanding awaits_sent (some pending) (some pending)
    → run c es s ≡ runs s'
    → never_asked (inputs c n es s) ≡ true
    → Later (first_told (inputs c n es s) none) (first_answer (inputs c n es s) none) (view c n s')
Later-in_run c n es s s' v e h =
    rw (view-run c n es s s' e, v) (Later-advances (inputs c n es s) none none _ h fresh_Later)

-- A request that was just made gets the body of the first message with its number as its response,
-- whatever else happens, once its sending was reported first as done, such a message came, and its
-- coroutine has gone on twice since, if its number is not asked for again meanwhile.
pub reqrep_completes :
    (c : Setting) (n : ℕ) (es es' : List Event) (s s' s'' : Session) (msg : NMessage)
    → view c n s ≡ outstanding awaits_sent (some pending) (some pending)
    → run c es s ≡ runs s'
    → run c es' s' ≡ runs s''
    → never_asked (inputs c n es s) ≡ true
    → never_asked (inputs c n es' s') ≡ true
    → first_told (inputs c n es s) none ≡ some true
    → first_answer (inputs c n es s) none ≡ some msg
    → 2 ≤ resumptions (inputs c n es' s')
    → view c n s'' ≡ ended (responded msg.1)
reqrep_completes c n es es' s s' s'' msg v e e' h h' t a k =
    let l : Later (some true) (some msg) (view c n s') =
      subst (λ o. Later (some true) o (view c n s')) a
        (subst (λ o. Later o (first_answer (inputs c n es s) none) (view c n s')) t
          (Later-in_run c n es s s' v e h)) in
    view-run c n es' s' s'' e'
    ∙ ready_ends (inputs c n es' s') msg (view c n s') l h'
        (let few = ready-left msg (view c n s') l in omega arith)

-- What was heard of a request that has its response.
abbrev Heard : Option Bool → Option NMessage → Request → Type 0
Heard t a (ended (responded body)) =
    (t ≡ some true) × (msg : NMessage) × (a ≡ some msg) × (msg.1 ≡ body)
Heard t a q = Unit

Heard-Later : (t : Option Bool) (a : Option NMessage) (q : Request) → Later t a q → Heard t a q
Heard-Later _ _ _ (waits_sent t a) = tt
Heard-Later _ _ _ (waits_rep a) = tt
Heard-Later _ _ _ (got_rep msg) = (refl, msg, refl, refl)
Heard-Later _ _ _ (not_sent a) = tt

-- A request that was just made and is not asked for again ends with a response only if its sending
-- was reported, first, as done, and the response is the body of the first message with its number.
pub responded_only_heard :
    (c : Setting) (n : ℕ) (es : List Event) (s s' : Session) (body : List ℕ)
    → view c n s ≡ outstanding awaits_sent (some pending) (some pending)
    → run c es s ≡ runs s'
    → never_asked (inputs c n es s) ≡ true
    → view c n s' ≡ ended (responded body)
    → (first_told (inputs c n es s) none ≡ some true)
      × (msg : NMessage) × (first_answer (inputs c n es s) none ≡ some msg)
      × (msg.1 ≡ body)
responded_only_heard c n es s s' body v e h ends =
    let xs = inputs c n es s in
    subst (Heard (first_told xs none) (first_answer xs none)) ends (
      Heard-Later (first_told xs none) (first_answer xs none) (view c n s')
        (Later-in_run c n es s s' v e h))
