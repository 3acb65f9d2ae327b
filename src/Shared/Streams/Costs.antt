-- ===== src/Shared/Streams/Costs.antt =====
-- What is left to do: requests to read, and results that the tasks can put with the input they have.
use numaflow_python.Base.{
  ℕ, suc, ◌+◌, ◌-◌, ◌≤◌, ◌<◌, ◌≡◌, inl, inr, refl, sym, subst, Bool, Option, none, some, List, [],
  ◌∷◌, ◌++◌, length, arith, Bool-cases,
}
use numaflow_python.Base.Text.{Str, str_eq, str_eq_iff, str_eq_refl}
use numaflow_python.Shared.Queue.{Read}
use numaflow_python.Shared.Streams.{
  Session, Manager, ManagerLaws, Produced, LanePhase, running, over, broken, Lane, set_lane, Phase,
  reading, draining, closed, aborted, is_drained, open_input, input_of, State, input,
}
use numaflow_python.Shared.Streams.Completion.{Among}

abbrev pub sum_over : (Str → ℕ) → List Str → ℕ
sum_over f [] = 0
sum_over f (k ∷ ks) = f k + sum_over f ks

sum_over-le :
    (f g : Str → ℕ) → ((k : Str) → g k ≤ f k) → (ks : List Str) → sum_over g ks ≤ sum_over f ks
sum_over-le f g h [] = omega arith
sum_over-le f g h (k ∷ ks) = omega (arith, h k, sum_over-le f g h ks)

-- A sum falls where one of its terms falls and none rises.
sum_over-lt :
    (f g : Str → ℕ) (j : Str) (ks : List Str)
    → ((k : Str) → g k ≤ f k)
    → g j < f j
    → Among j ks
    → sum_over g ks < sum_over f ks
sum_over-lt f g j [] h l a = absurd a
sum_over-lt f g j (k ∷ ks) h l (inl e) =
    let l' = subst (λ n. g n < f n) (sym e) l in omega (arith, l', sum_over-le f g h ks)
sum_over-lt f g j (k ∷ ks) h l (inr a) = omega (arith, h k, sum_over-lt f g j ks h l a)

pub length-put :
    {A : Type 0} (xs : List A) (x : A) (ys : List A)
    → length (xs ++ x ∷ ys) ≡ suc (length xs + length ys)
length-put [] x ys = omega arith
length-put (z ∷ xs) x ys = omega (arith, length-put xs x ys)

abbrev pub phase_cost : Phase → ℕ
phase_cost reading = 2
phase_cost draining = 1
phase_cost closed = 0
phase_cost aborted = 0

abbrev pub waiting_cost : {A : Type 0} → Option A → ℕ
waiting_cost none = 0
waiting_cost (some x) = 1

abbrev pub request_cost : {A : Type 0} → List A → ℕ
request_cost [] = 0
request_cost (r ∷ rs) = suc (suc (request_cost rs))

abbrev pub left_to_put : LanePhase → ℕ → ℕ → ℕ
left_to_put running made sent = suc (made - sent)
left_to_put over made sent = 0
left_to_put broken made sent = 0

module _ (manager : Manager) (laws : ManagerLaws manager) {Out : Type 0}
    (work : manager.Info → Read (manager.D) → Produced Out) (trailer : manager.TM → List Out) where
  open manager use {Req, Info, D, TM, init, on_request, task, command, IsValid}

  -- What the task of a lane can still put with this input, and its end.
  abbrev pub lane_cost : Option (Info × Read D) → Lane Out → ℕ
  lane_cost none lane = 0
  lane_cost (some (i, r)) lane =
      left_to_put lane.phase (length (work i r).output) (length lane.sent)

  abbrev pub to_read : State manager Out → ℕ
  to_read s = request_cost s.requests + waiting_cost s.waiting + phase_cost s.phase

  abbrev pub to_put : List Str → State manager Out → ℕ
  to_put ks s = sum_over (λ k. lane_cost (input manager work trailer s k) (s.lanes k)) ks

  -- All tasks have names among these.
  pub record Named (ks : List Str) (s : State manager Out) : Type 0 where
    pub valid : IsValid s.tm
    pub open_tasks : (k : Str) (x : Session Info D) → task s.tm k ≡ some x → Among k ks
    pub waited : (k : Str) (x : Session Info D) → s.waiting ≡ some (k, x) → Among k ks

  open_input-Among :
      (ks : List Str) (k : Str) (o : Option (Session Info D)) (ended : Bool) (y : Info × Read D)
      → ((x : Session Info D) → o ≡ some x → Among k ks)
      → open_input ended o ≡ some y
      → Among k ks
  open_input-Among ks k none ended y h e = cc
  open_input-Among ks k (some x) ended y h e = h x refl

  pub input-Among :
      (ks : List Str) (k : Str) (w : Option (Str × Session Info D)) (o : Option (Session Info D))
      (ended : Bool) (y : Info × Read D)
      → ((x : Session Info D) → o ≡ some x → Among k ks)
      → ((j : Str) (x : Session Info D) → w ≡ some (j, x) → Among j ks)
      → input_of k w ended o ≡ some y
      → Among k ks
  input-Among ks k none o ended y h g e = open_input-Among ks k o ended y h e
  input-Among ks k (some (j, x)) o ended y h g e = elim (Bool-cases (str_eq j k)) [
    | inl q ↦ subst (λ n. Among n ks) ((str_eq_iff j k).0 q) (g j x refl)
    | inr q ↦ open_input-Among ks k o ended y h (rw q at e)
  ]

  module _ (ks : List Str) (s : State manager Out) (n : Named ks s) where
    set_lane-le :
        (j : Str) (new : Lane Out)
        → lane_cost (input manager work trailer s j) new
          ≤ lane_cost (input manager work trailer s j) (s.lanes j)
        → (k : Str)
        → lane_cost (input manager work trailer s k) (set_lane s.lanes j new k)
          ≤ lane_cost (input manager work trailer s k) (s.lanes k)
    set_lane-le j new h k = elim (Bool-cases (str_eq j k)) [
      | inl q ↦ rw q (
          subst
            (λ k.
              lane_cost (input manager work trailer s k) new
              ≤ lane_cost (input manager work trailer s k) (s.lanes k))
            ((str_eq_iff j k).0 q) h)
      | inr q ↦ rw q (omega arith)
    ]

    pub set_lane-lt :
        (j : Str) (new : Lane Out) (y : Info × Read D)
        → input manager work trailer s j ≡ some y
        → lane_cost (some y) new < lane_cost (some y) (s.lanes j)
        → sum_over (λ k. lane_cost (input manager work trailer s k) (set_lane s.lanes j new k)) ks
          < to_put ks s
    set_lane-lt j new y h l =
        let l' : lane_cost (input manager work trailer s j) new
            < lane_cost (input manager work trailer s j) (s.lanes j) =
          rw h l in
        sum_over-lt (λ k. lane_cost (input manager work trailer s k) (s.lanes k))
          (λ k. lane_cost (input manager work trailer s k) (set_lane s.lanes j new k)) j ks
          (set_lane-le j new (omega (arith, l'))) (rw (str_eq_refl j) l')
          (input-Among ks j s.waiting (task s.tm j) (is_drained s.phase) y (n.open_tasks j) n.waited
            h)
