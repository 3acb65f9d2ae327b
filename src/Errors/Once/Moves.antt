-- ===== src/Errors/Once/Moves.antt =====
-- What a step of one thread does to the invariant.
use numaflow_python.Base.{
  ℕ, ◌≡◌, ◌≢◌, refl, sym, ap, ◌∙◌, subst, inl, inr, Bool, true, false, Option, none, some, List, [],
  ◌==◌, ==_iff, if◌then◌else◌, arith, Bool-cases,
}
use numaflow_python.Base.Text.{Str}
use numaflow_python.Errors.{
  Call, Files, Op, already_executed, Thread, calling, locked, writing, ended, State, set_thread,
  operations,
}
use numaflow_python.Errors.Once.{
  holds, Fresh, Spectator, Fresh-Spectator, Executes, AtMostOnce, nobody, somebody, Inv,
}

module _ (container_type : Str) (calls : ℕ → Option Call) (before : Files) (s : State)
    (inv : Inv container_type calls before s) where
  -- The threads after a step of thread `i`.
  updated :
      (P : ℕ → Thread → Type 0) (i : ℕ) (t : Thread)
      → P i t
      → ((j : ℕ) → j ≢ i → P j (s.threads j))
      → (j : ℕ) → P j (set_thread s.threads i t j)
  updated P i t p others j = elim (Bool-cases (i == j)) [
    | inl h ↦ rw h (subst (λ k. P k t) ((==_iff i j).0 h) p)
    | inr h ↦ rw h (others j (λ e. ground (arith, ==_iff i j)))
  ]

  -- Thread `i` has, gets or gives back the lock.
  lock-with :
      (i : ℕ) (t : Thread)
      → ((j : ℕ) → j ≢ i → holds (s.threads j) ≡ false)
      → (o : Option ℕ) → o ≡ (if holds t then some i else none)
      → ((j : ℕ) → holds (set_thread s.threads i t j) ≡ true → o ≡ some j)
        × ((j : ℕ) → o ≡ some j → holds (set_thread s.threads i t j) ≡ true)
  lock-with i t others o e = elim (Bool-cases (holds t)) [
    | inl h ↦
        let q : o ≡ some i = e ∙ (rw h refl) in
        (
          updated (λ j x. holds x ≡ true → o ≡ some j) i t (λ _. q)
              (λ j n b. let b' = others j n in cc),
          updated (λ j x. o ≡ some j → holds x ≡ true) i t (λ _. h) (λ j n f. absurd (n cc)),
        )
    | inr h ↦
        let q : o ≡ none = e ∙ (rw h refl) in
        (
          updated (λ j x. holds x ≡ true → o ≡ some j) i t (λ b. cc)
              (λ j n b. let b' = others j n in cc),
          updated (λ j x. o ≡ some j → holds x ≡ true) i t (λ f. cc) (λ j n f. cc),
        )
  ]

  pub others_wait :
      (i : ℕ) → holds (s.threads i) ≡ true → (j : ℕ) → j ≢ i → holds (s.threads j) ≡ false
  others_wait i h j n = elim (Bool-cases (holds (s.threads j))) [
    | inl b ↦ let a = inv.mutex i h in let b' = inv.mutex j b in absurd (n cc)
    | inr b ↦ b
  ]

  pub free : s.lock ≡ none → (j : ℕ) → holds (s.threads j) ≡ false
  free l j = elim (Bool-cases (holds (s.threads j))) [
    | inl b ↦ let a = inv.mutex j b in cc
    | inr b ↦ b
  ]

  -- A step of thread `i` that is no call on the files.
  pub moved :
      (i : ℕ) (t : Thread) (o : Option ℕ) (done : Bool) (files : Files)
      → ((j : ℕ) → j ≢ i → holds (s.threads j) ≡ false)
      → o ≡ (if holds t then some i else none)
      → AtMostOnce container_type calls before
          (record { threads = set_thread s.threads i t; lock = o; done = done; files = files })
      → Inv container_type calls before
          (record { threads = set_thread s.threads i t; lock = o; done = done; files = files })
  moved i t o done files others e p =
      let (m, w) = lock-with i t others o e in record { mutex = m; owner = w; progress = p }

  same_thread : (i : ℕ) (t : Thread) → set_thread s.threads i t i ≡ t
  same_thread i t = rw ((==_iff i i).1 refl) refl

  -- A step of a thread that does not execute the function, when another does or did.
  bystander :
      (k : ℕ) (b : Call) (now i : ℕ) (t : Thread) (o : Option ℕ)
      → s.done ≡ true
      → calls k ≡ some b
      → Executes before (operations container_type b now) (s.threads k) s.files
      → ((j : ℕ) → j ≢ k → Spectator (calls j) (s.threads j))
      → (k ≢ i)
      → Spectator (calls i) t
      → AtMostOnce container_type calls before
          (record s { threads = set_thread s.threads i t; lock = o })
  bystander k b now i t o d q x u n p =
      somebody k b now d q
        (updated (λ j t. j ≡ k → Executes before (operations container_type b now) t s.files) i t
          (λ e. absurd (n (sym e)))
          (λ j m e.
            subst (λ j. Executes before (operations container_type b now) (s.threads j) s.files)
              (sym e) x)
          k refl)
        (updated (λ j t. j ≢ k → Spectator (calls j) t) i t (λ _. p) (λ j m. u j))

  -- Thread `i`, if it waits or has just the lock, is not the one that executes.
  not_runner :
      (k i : ℕ) (ops : List Op) (t : Thread)
      → s.threads i ≡ t
      → (Executes before ops t s.files → ⊥)
      → Executes before ops (s.threads k) s.files
      → k ≢ i
  not_runner k i ops t e n x q =
      n (subst (λ t. Executes before ops t s.files) (ap s.threads q ∙ e) x)

  pub AtMostOnce-acquire :
      (i : ℕ) (c : Call)
      → s.threads i ≡ calling c
      → AtMostOnce container_type calls before
          (record s { threads = set_thread s.threads i (locked c); lock = some i })
  AtMostOnce-acquire i c e = elim inv.progress [
    | nobody d f u ↦ nobody d f (
        updated (λ j t. Fresh (calls j) t) i (locked c) (subst (Fresh (calls i)) e (u i))
          (λ j n. u j))
    | somebody k b now d q x u ↦
        let n = not_runner k i (operations container_type b now) (calling c) e (λ z. z) x in
        bystander k b now i (locked c) (some i) d q x u n
          (subst (Spectator (calls i)) e (u i (λ z. n (sym z))))
  ]

  pub AtMostOnce-refuse :
      (i : ℕ) (c : Call)
      → s.threads i ≡ locked c
      → s.done ≡ true
      → AtMostOnce container_type calls before
          (record s { threads = set_thread s.threads i (ended already_executed); lock = none })
  AtMostOnce-refuse i c e g = elim inv.progress [
    | nobody d f u ↦ cc
    | somebody k b now d q x u ↦
        bystander k b now i (ended already_executed) none d q x u
          (not_runner k i (operations container_type b now) (locked c) e (λ z. z) x) tt
  ]

  pub AtMostOnce-begin :
      (i : ℕ) (c : Call) (now : ℕ)
      → s.threads i ≡ locked c
      → s.done ≡ false
      → AtMostOnce container_type calls before (record s {
        threads = set_thread s.threads i (writing (operations container_type c now));
        done = true;
      })
  AtMostOnce-begin i c now e g = elim inv.progress [
    | nobody d f u ↦
        somebody i c now refl (subst (Fresh (calls i)) e (u i))
          (subst (λ t. Executes before (operations container_type c now) t s.files)
            (sym (same_thread i _)) ([], refl, f))
          (updated (λ j t. j ≢ i → Spectator (calls j) t) i _ (λ n. absurd (n refl))
            (λ j n _. Fresh-Spectator (calls j) (s.threads j) (u j)))
    | somebody k b now' d q x u ↦ cc
  ]

  -- The thread in the function is the one that executes, and goes on.
  pub goes_on :
      (i : ℕ) (rest : List Op) (t : Thread) (o : Option ℕ) (files : Files)
      → s.threads i ≡ writing rest
      → ((ops : List Op) → Executes before ops (writing rest) s.files → Executes before ops t files)
      → AtMostOnce container_type calls before
          (record s { threads = set_thread s.threads i t; lock = o; files = files })
  goes_on i rest t o files e next = elim inv.progress [
    | nobody d f u ↦ absurd (subst (Fresh (calls i)) e (u i))
    | somebody k b now d q x u ↦ elim (Bool-cases (k == i)) [
      | inl h ↦
          let p = (==_iff k i).0 h in
          let x' =
            subst (λ t. Executes before (operations container_type b now) t s.files)
              (ap s.threads p ∙ e) x in
          somebody i b now d (ap calls (sym p) ∙ q)
            (subst (λ t. Executes before (operations container_type b now) t files)
              (sym (same_thread i t)) (next _ x'))
            (updated (λ j t. j ≢ i → Spectator (calls j) t) i t (λ n. absurd (n refl))
              (λ j n _. u j (λ z. n (z ∙ p))))
      | inr h ↦
          absurd (subst (Spectator (calls i)) e (u i (λ z. let h' = (==_iff k i).1 (sym z) in cc)))
    ]
  ]
