-- ===== src/Master/Scheduler/Compare.antt =====
-- The comparison of two tasks in TaskComparison.cpp, with the tasks that stand in the way of others.
use dnp.Prelude.{
  Bool-cases, ltb, ℕ, ◌≤◌, ◌<◌, Bool, true, false, ◌&&◌, List, ◌⊎◌, ◌≡◌, arith, inl, inr, All,
  lt_or_le,
}
use dnp.Master.Scheduler.{
  MasterTask, expiration_time, higher_priority, enabled, by_time, select_higher_priority, is_right,
}

module _ (can_run : MasterTask → Bool) (now : ℕ) where
  -- One task is at least as good a choice as another, by their times and priorities.
  abbrev pub Good : MasterTask → MasterTask → Type 0
  Good t u =
      (expiration_time u ≤ now → (expiration_time t ≤ now) × (t.priority ≤ u.priority))
      × (now < expiration_time u → expiration_time t ≤ now ⊎ expiration_time t ≤ expiration_time u)

  pub Good-refl : (t : MasterTask) → Good t t
  Good-refl t = ((λ due. (due, omega arith)), (λ later. inr (omega arith)))

  Good-trans : (t u v : MasterTask) → Good t u → Good u v → Good t v
  Good-trans t u v tu uv = (
    (λ due.
        let v_due = uv.0 due in
        let u_due = tu.0 v_due.0 in (u_due.0, omega (arith, u_due.1, v_due.1))),
    (λ later. elim (lt_or_le now (expiration_time u)) [
      | inl u_later ↦ ground (arith, uv.1 later, tu.1 u_later, u_later)
      | inr u_due ↦ inl (tu.0 u_due).0
    ]),
  )

  -- A task stands in the way of those of a lower priority.
  unfoldable pub blocks : MasterTask → Bool
  blocks t = enabled can_run now t && t.blocks_lower_priority

  -- No task of a list stands in the way of a task.
  abbrev pub Unblocked : List MasterTask → MasterTask → Type 0
  Unblocked tasks u = All (λ w. blocks w ≡ true → u.priority ≤ w.priority) tasks

  -- The tasks up to a priority block those below them or, where they are enabled, are due; the tasks
  -- below it block nothing.
  unfoldable pub Regular : ℕ → MasterTask → Type 0
  Regular lowest t =
      (t.blocks_lower_priority ≡ true → t.priority ≤ lowest)
      × (t.blocks_lower_priority ≡ false
          → enabled can_run now t ≡ true
          → t.priority ≤ lowest
          → expiration_time t ≤ now)

  pub right_enabled :
      (b x : MasterTask)
      → is_right (select_higher_priority can_run now b x) ≡ true
      → enabled can_run now x ≡ true
  unfolding select_higher_priority is_right
  right_enabled b x e = ground (arith, e)

  -- Why the next task replaces the best so far: it blocks it, or it is as good and not blocked by it.
  right_cases :
      (b x : MasterTask)
      → is_right (select_higher_priority can_run now b x) ≡ true
      → enabled can_run now b ≡ true
      → ((x.blocks_lower_priority ≡ true) × (x.priority < b.priority))
        ⊎ ((b.blocks_lower_priority ≡ true → x.priority ≤ b.priority) × Good x b)
  unfolding select_higher_priority by_time higher_priority is_right
  right_cases b x e on = elim (Bool-cases (ltb x.priority b.priority && x.blocks_lower_priority)) [
    | inl stops ↦ inl (ground (arith, stops), ground (arith, stops))
    | inr free ↦ inr (
      λ k. ground (arith, e, on, free, k),
      ((λ due. ground (arith, e, on, free, due)), (λ later. ground (arith, e, on, free, later))),
    )
  ]

  -- What does not block the best so far does not block the next task that replaces it.
  pub right_unblocked :
      (lowest : ℕ) (b x u : MasterTask)
      → Regular lowest b
      → Regular lowest u
      → is_right (select_higher_priority can_run now b x) ≡ true
      → enabled can_run now b ≡ true
      → (blocks u ≡ true → b.priority ≤ u.priority)
      → blocks u ≡ true
      → x.priority ≤ u.priority
  unfolding blocks Regular
  right_unblocked lowest b x u rb ru e on h k = elim (right_cases b x e on) [
    | inl stops ↦ omega (arith, stops.1, h k)
    | inr better ↦ elim (Bool-cases b.blocks_lower_priority) [
      | inl stops ↦ omega (arith, better.0 stops, h k)
      | inr free ↦
          let reached : u.priority ≤ lowest = ru.0 (ground (arith, k)) in
          let due = rb.1 free on (omega (arith, reached, h k)) in
          omega (arith, (better.1.0 due).1, h k)
    ]
  ]

  -- The next task that replaces the best is as good as what the best is as good as and it does not block.
  pub right_Good :
      (lowest : ℕ) (b x u : MasterTask)
      → Regular lowest x
      → Regular lowest u
      → is_right (select_higher_priority can_run now b x) ≡ true
      → enabled can_run now b ≡ true
      → enabled can_run now u ≡ true
      → (blocks u ≡ true → b.priority ≤ u.priority)
      → (blocks x ≡ true → u.priority ≤ x.priority)
      → Good b u
      → Good x u
  unfolding blocks Regular
  right_Good lowest b x u rx ru e on on' h k g = elim (right_cases b x e on) [
    | inr better ↦ Good-trans x b u better.1 g
    | inl stops ↦
        let below : u.priority ≤ x.priority = k (ground (arith, right_enabled b x e, stops.0)) in
        elim (Bool-cases u.blocks_lower_priority) [
          | inl also ↦ absurd (omega (arith, stops.1, below, h (ground (arith, on', also))))
          | inr free ↦
              let due = ru.1 free on' (omega (arith, below, rx.0 stops.0)) in
              absurd (omega (arith, stops.1, below, (g.0 due).1))
        ]
  ]

  pub left_better :
      (b x : MasterTask)
      → is_right (select_higher_priority can_run now b x) ≡ false
      → enabled can_run now x ≡ true
      → (enabled can_run now b ≡ true)
        × (blocks x ≡ true → b.priority ≤ x.priority)
        × ((blocks b ≡ true → x.priority ≤ b.priority) → Good b x)
  unfolding select_higher_priority by_time higher_priority is_right blocks
  left_better b x e on = (
    ground (arith, e, on),
    (λ k. ground (arith, e, on, k)),
    λ k. ((λ due. ground (arith, e, on, k, due)), (λ later. ground (arith, e, on, k, later))),
  )
