-- ===== src/Master/Scheduler/Choice.antt =====
-- Which task GetNext of MasterScheduler.cpp starts.
use dnp.Prelude.{
  append-nil, All-front, All-back, All-append, subst, ℕ, suc, ◌≤◌, ◌<◌, Bool, true, false, ◌&&◌,
  some, List, [], ◌∷◌, ◌++◌, if◌then◌else◌, leb, ◌≡◌, refl, sym, ap, ◌∙◌, arith, if_intro, inl, inr,
  All, lt_or_le, length, append_assoc, length-append,
}
use dnp.Master.Scheduler.{
  MasterTask, expiration_time, max_time, enabled, select_higher_priority, is_right, get_next_from,
  get_next_task, get_next, get_next_of, erase_at, Next, start, wait_until,
}
use dnp.Master.Scheduler.Compare.{
  Good, Good-refl, blocks, Unblocked, Regular, right_enabled, right_unblocked, right_Good,
  left_better,
}

module _ (can_run : MasterTask → Bool) (now : ℕ) where
  erase_at-append :
      (front back : List MasterTask) (t : MasterTask)
      → erase_at (length front) (front ++ (t ∷ back)) ≡ front ++ back
  unfolding erase_at
  erase_at-append [] back t = refl
  erase_at-append (x ∷ front) back t = ap (◌∷◌ x) (erase_at-append front back t)

  All-imp :
      (P Q : MasterTask → Type 0) (ts : List MasterTask)
      → ((t : MasterTask) → P t → Q t)
      → All P ts
      → All Q ts
  All-imp P Q [] f h = tt
  All-imp P Q (t ∷ ts) f h = (f t h.0, All-imp P Q ts f h.1)

  enabled-can_run : (t : MasterTask) → enabled can_run now t ≡ true → can_run t ≡ true
  unfolding enabled
  enabled-can_run t h = ground (arith, h)

  -- The best of the tasks seen: a task among them that no other blocks, and as good as any that no other
  -- blocks.
  abbrev Fits : List MasterTask → MasterTask → MasterTask → Type 0
  Fits seen b u =
      enabled can_run now u ≡ true
      → (enabled can_run now b ≡ true)
        × (blocks can_run now u ≡ true → b.priority ≤ u.priority)
        × (Unblocked can_run now seen u → Good can_run now b u)

  record Best (lowest : ℕ) (seen : List MasterTask) (best : ℕ × MasterTask) : Type 0 where
    regular : Regular can_run now lowest best.1
    stands :
        (front : List MasterTask) × (back : List MasterTask) × (seen ≡ front ++ (best.1 ∷ back))
        × (length front ≡ best.0)
    all_regular : All (Regular can_run now lowest) seen
    fits : All (Fits seen best.1) seen

  Best-first :
      (lowest : ℕ) (t : MasterTask) → Regular can_run now lowest t → Best lowest (t ∷ []) (0, t)
  Best-first lowest t r = record {
    regular = r;
    stands = ([], [], refl, refl);
    all_regular = (r, tt);
    fits = (λ on. (on, (λ k. omega arith), λ free. Good-refl can_run now t), tt);
  }

  -- Each of the tasks seen against the one that replaces the best.
  replaced_each :
      (lowest : ℕ) (seen ts : List MasterTask) (b x : MasterTask)
      → Regular can_run now lowest b
      → Regular can_run now lowest x
      → is_right (select_higher_priority can_run now b x) ≡ true
      → All (Regular can_run now lowest) ts
      → All (Fits seen b) ts
      → All (Fits (seen ++ (x ∷ [])) x) ts
  replaced_each lowest seen [] b x rb rx e rs fs = tt
  replaced_each lowest seen (u ∷ ts) b x rb rx e rs fs = (
    λ on.
        let before = fs.0 on in
        (
          right_enabled can_run now b x e,
          right_unblocked can_run now lowest b x u rb rs.0 e before.0 before.1,
          λ free.
              let apart =
                All-front (λ w. blocks can_run now w ≡ true → u.priority ≤ w.priority) seen (x ∷ [])
                  free in
              let behind =
                All-back (λ w. blocks can_run now w ≡ true → u.priority ≤ w.priority) seen (x ∷ [])
                  free in
              right_Good can_run now lowest b x u rx rs.0 e before.0 on before.1 behind.0
                (before.2 apart),
        ),
    replaced_each lowest seen ts b x rb rx e rs.1 fs.1,
  )

  kept_each :
      (seen ts : List MasterTask) (b x : MasterTask)
      → All (Fits seen b) ts
      → All (Fits (seen ++ (x ∷ [])) b) ts
  kept_each seen [] b x fs = tt
  kept_each seen (u ∷ ts) b x fs = (
    λ on.
        let before = fs.0 on in
        (
          before.0,
          before.1,
          λ free. before.2 (
              All-front (λ w. blocks can_run now w ≡ true → u.priority ≤ w.priority) seen (x ∷ [])
                free),
        ),
    kept_each seen ts b x fs.1,
  )

  -- The better of the best so far and the next task.
  better : ℕ × MasterTask → ℕ → MasterTask → ℕ × MasterTask
  better best i x = if is_right (select_higher_priority can_run now best.1 x) then (i, x) else best

  better-right :
      (lowest i : ℕ) (seen : List MasterTask) (best : ℕ × MasterTask) (x : MasterTask)
      → Best lowest seen best
      → Regular can_run now lowest x
      → length seen ≡ i
      → is_right (select_higher_priority can_run now best.1 x) ≡ true
      → Best lowest (seen ++ (x ∷ [])) (i, x)
  better-right lowest i seen best x k r n e = record {
    regular = r;
    stands = (seen, [], refl, n);
    all_regular = All-append (Regular can_run now lowest) seen (x ∷ []) k.all_regular (r, tt);
    fits =
        All-append (Fits (seen ++ (x ∷ [])) x) seen (x ∷ [])
          (replaced_each lowest seen seen best.1 x k.regular r e k.all_regular k.fits)
          (λ on. (on, (λ s. omega arith), λ free. Good-refl can_run now x), tt);
  }

  at_best :
      (lowest : ℕ) (seen : List MasterTask) (best : ℕ × MasterTask) (P : MasterTask → Type 0)
      → Best lowest seen best
      → All P seen
      → P best.1
  at_best lowest seen best P k all =
      (All-back P k.stands.0 (best.1 ∷ k.stands.1) (subst (All P) k.stands.2 all)).0

  better-left :
      (lowest i : ℕ) (seen : List MasterTask) (best : ℕ × MasterTask) (x : MasterTask)
      → Best lowest seen best
      → Regular can_run now lowest x
      → is_right (select_higher_priority can_run now best.1 x) ≡ false
      → Best lowest (seen ++ (x ∷ [])) best
  better-left lowest i seen best x k r e = record {
    regular = k.regular;
    stands = (
      k.stands.0,
      k.stands.1 ++ (x ∷ []),
      ap (λ tasks. tasks ++ (x ∷ [])) k.stands.2
          ∙ append_assoc k.stands.0 (best.1 ∷ k.stands.1) (x ∷ []),
      k.stands.3,
    );
    all_regular = All-append (Regular can_run now lowest) seen (x ∷ []) k.all_regular (r, tt);
    fits =
        All-append (Fits (seen ++ (x ∷ [])) best.1) seen (x ∷ [])
          (kept_each seen seen best.1 x k.fits)
          (
            λ on.
                let against = left_better can_run now best.1 x e on in
                (
                  against.0,
                  against.1,
                  λ free. against.2 (
                      at_best lowest seen best
                        (λ w. blocks can_run now w ≡ true → x.priority ≤ w.priority) k
                        (All-front (λ w. blocks can_run now w ≡ true → x.priority ≤ w.priority) seen
                          (x ∷ []) free)),
                ),
            tt,
          );
  }

  get_next_from-Best :
      (lowest : ℕ) (best : ℕ × MasterTask) (i : ℕ) (ts seen : List MasterTask)
      → Best lowest seen best
      → length seen ≡ i
      → All (Regular can_run now lowest) ts
      → Best lowest (seen ++ ts) (get_next_from can_run now best i ts)
  unfolding get_next_from better
  get_next_from-Best lowest best i [] seen k n rs =
      subst (λ tasks. Best lowest tasks best) (sym (append-nil seen)) k
  get_next_from-Best lowest best i (x ∷ ts) seen k n rs =
      subst (λ tasks. Best lowest tasks (get_next_from can_run now (better best i x) (suc i) ts))
        (append_assoc seen (x ∷ []) ts)
        (get_next_from-Best lowest (better best i x) (suc i) ts (seen ++ (x ∷ []))
          (if_intro (is_right (select_higher_priority can_run now best.1 x))
            (Best lowest (seen ++ (x ∷ []))) (λ e. better-right lowest i seen best x k rs.0 n e)
            (λ e. better-left lowest i seen best x k rs.0 e))
          (omega (arith, n, length-append seen (x ∷ []))) rs.1)

  -- What `GetNext` answers, with the tasks that stay.
  unfoldable pub Chosen : List MasterTask → Next → List MasterTask → Type 0
  Chosen tasks (start t) rest =
      (expiration_time t ≤ now)
      × (can_run t ≡ true)
      × All
          (λ u.
            enabled can_run now u ≡ true
            → (blocks can_run now u ≡ true → t.priority ≤ u.priority)
              × (Unblocked can_run now tasks u → expiration_time u ≤ now → t.priority ≤ u.priority))
          tasks
      × ((front : List MasterTask) × (back : List MasterTask) × (tasks ≡ front ++ (t ∷ back))
          × (rest ≡ front ++ back))
  Chosen tasks (wait_until time) rest =
      (rest ≡ tasks)
      × All
          (λ u.
            enabled can_run now u ≡ true
            → Unblocked can_run now tasks u
            → (now < expiration_time u) × (time ≤ expiration_time u))
          tasks

  -- A best task that does not start is due no later than the others that are not blocked.
  wait_lem :
      (t u : MasterTask)
      → (leb (expiration_time t) now && can_run t) ≡ false
      → enabled can_run now t ≡ true
      → Good can_run now t u
      → (now < expiration_time u)
        × ((if can_run t then expiration_time t else max_time) ≤ expiration_time u)
  wait_lem t u e on h =
      let runs = enabled-can_run t on in
      elim (lt_or_le now (expiration_time u)) [
        | inl later ↦ (later, ground (arith, e, runs, h.1 later))
        | inr due ↦ absurd (ground (arith, e, runs, (h.0 due).0))
      ]

  get_next_of-Chosen :
      (lowest : ℕ) (b : ℕ × MasterTask) (tasks : List MasterTask)
      → Best lowest tasks b
      → Chosen tasks
          (get_next_of can_run now (some b) tasks).0
          (get_next_of can_run now (some b) tasks).1
  unfolding get_next_of Chosen
  get_next_of-Chosen lowest b tasks k =
      if_intro (leb (expiration_time b.1) now && can_run b.1)
        (λ (out : Next × List MasterTask). Chosen tasks out.0 out.1)
        (λ e. (
          ground (arith, e),
          ground (arith, e),
          All-imp (Fits tasks b.1)
              (λ u.
                enabled can_run now u ≡ true
                → (blocks can_run now u ≡ true → b.1.priority ≤ u.priority)
                  × (Unblocked can_run now tasks u
                      → expiration_time u ≤ now
                      → b.1.priority ≤ u.priority))
              tasks (λ u h on. ((h on).1, λ free due. (((h on).2 free).0 due).1)) k.fits,
          (
            k.stands.0,
            k.stands.1,
            k.stands.2,
            ap (λ n. erase_at n tasks) (sym k.stands.3)
                ∙ ap (erase_at (length k.stands.0)) k.stands.2
                ∙ erase_at-append k.stands.0 k.stands.1 b.1,
          ),
        ))
        (λ e. (
          refl,
          All-imp (Fits tasks b.1)
              (λ u.
                enabled can_run now u ≡ true
                → Unblocked can_run now tasks u
                → (now < expiration_time u)
                  × ((if can_run b.1 then expiration_time b.1 else max_time) ≤ expiration_time u))
              tasks (λ u h on free. wait_lem b.1 u e (h on).0 ((h on).2 free)) k.fits,
        ))

  -- Where the tasks up to a priority block those below them or, if they are enabled, are due, and
  -- the tasks below that priority block nothing, GetNext starts a task that is due and may run, that
  -- no enabled task blocks, and that no other unblocked enabled task that is due precedes in
  -- priority, and takes exactly this task out; or it leaves the tasks, no enabled task that is not
  -- blocked is due, and the time that it gives is not after the time of any of these.
  pub get_next-Chosen :
      (lowest : ℕ) (tasks : List MasterTask)
      → All (Regular can_run now lowest) tasks
      → Chosen tasks (get_next can_run now tasks).0 (get_next can_run now tasks).1
  unfolding get_next get_next_task get_next_of Chosen
  get_next-Chosen lowest [] rs = (refl, tt)
  get_next-Chosen lowest (t ∷ ts) rs =
      get_next_of-Chosen lowest (get_next_from can_run now (0, t) 1 ts) (t ∷ ts)
        (get_next_from-Best lowest (0, t) 1 ts (t ∷ []) (Best-first lowest t rs.0) refl rs.1)
