-- ===== src/Master/TaskLock/Turns.antt =====
-- The masters take turns: one holds the lock, the others wait once each, in the order in which they asked.
use dnp.Prelude.{
  ℕ, Bool, true, false, not, ◌&&◌, ◌||◌, Option, none, some, List, [], ◌∷◌, ◌++◌, ◌==◌, ◌≡◌, refl,
  sym, ap, ◌∙◌, arith, Bool-cases, if_intro, inl, inr,
}
use dnp.Master.TaskLock.{
  MultidropTaskLock, new_lock, contains, erase, add_if_not_contained, acquire_held, acquire,
  is_active, next_active, release, on_layer_up, on_layer_down,
}

-- No callback twice.
unfoldable pub distinct : List ℕ → Bool
distinct [] = true
distinct (c ∷ cs) = not (contains c cs) && distinct cs

-- The set holds what the queue holds, once each, and not the active callback; without an active callback nobody waits.
pub record Fair (l : MultidropTaskLock) : Type 0 where
  pub same : (c : ℕ) → contains c l.callback_set ≡ contains c l.callback_queue
  pub once : distinct l.callback_queue ≡ true
  pub not_active : (a : ℕ) → l.active ≡ some a → contains a l.callback_queue ≡ false
  pub nobody : l.active ≡ none → l.callback_queue ≡ []
  pub offline : l.is_online ≡ false → l.active ≡ none

contains-append :
    (c : ℕ) (xs ys : List ℕ) → contains c (xs ++ ys) ≡ (contains c xs || contains c ys)
unfolding contains
contains-append c [] ys = refl
contains-append c (x ∷ xs) ys = ground (arith, contains-append c xs ys)

contains-erase : (c d : ℕ) (xs : List ℕ) → contains c (erase d xs) ≡ (contains c xs && not (c == d))
unfolding contains erase
contains-erase c d [] = refl
contains-erase c d (x ∷ xs) = ground (arith, contains-erase c d xs)

distinct-append :
    (c : ℕ) (xs : List ℕ)
    → distinct xs ≡ true
    → contains c xs ≡ false
    → distinct (xs ++ (c ∷ [])) ≡ true
unfolding distinct contains
distinct-append c [] d n = refl
distinct-append c (x ∷ xs) d n =
    ground (arith, d, n, distinct-append c xs, contains-append x xs (c ∷ []))

new_lock-Fair : Fair new_lock
unfolding new_lock distinct
new_lock-Fair = record {
  same = λ c. refl;
  once = refl;
  not_active = λ a e. absurd (ground (arith, e));
  nobody = λ e. refl;
  offline = λ e. refl;
}

add-Fair :
    (c : ℕ) (l : MultidropTaskLock) (a : ℕ)
    → Fair l
    → l.active ≡ some a
    → (c == a) ≡ false
    → l.is_online ≡ true
    → Fair (add_if_not_contained c l).1
unfolding add_if_not_contained contains
add-Fair c l a k held other up = elim (Bool-cases (contains c l.callback_set)) [
  | inl e ↦ rw e k
  | inr e ↦ rw e (record {
    same = λ d. ground (arith, k.same d, contains-append d l.callback_queue (c ∷ []));
    once = distinct-append c l.callback_queue k.once (sym (k.same c) ∙ e);
    not_active = λ b h.
        ground
          (arith, h, held, other, k.not_active b h, contains-append b l.callback_queue (c ∷ []));
    nobody = λ h. absurd (ground (arith, h, held));
    offline = λ h. absurd (ground (arith, h, up));
  })
]

acquire_held-Fair :
    (c : ℕ) (o : Option ℕ) (l : MultidropTaskLock)
    → l.active ≡ o
    → l.is_online ≡ true
    → Fair l
    → Fair (acquire_held c o l).1
unfolding acquire_held contains
acquire_held-Fair c none l e up k = record {
  same = k.same;
  once = k.once;
  not_active = λ a h. ap (contains a) (k.nobody e);
  nobody = λ h. absurd (ground (arith, h));
  offline = λ h. absurd (ground (arith, h, up));
}
acquire_held-Fair c (some a) l e up k = elim (Bool-cases (c == a)) [
  | inl h ↦ rw h k
  | inr h ↦ rw h (add-Fair c l a k e h up)
]

-- What leaves the front of the queue leaves the set.
erased_same :
    (d c : ℕ) (cs set : List ℕ)
    → distinct (c ∷ cs) ≡ true
    → contains d set ≡ contains d (c ∷ cs)
    → contains d (erase c set) ≡ contains d cs
unfolding distinct contains
erased_same d c cs set once e = elim (Bool-cases (d == c)) [
  | inl same ↦ ground (
    arith,
    same,
    once,
    e,
    contains-erase d c set,
    ap (λ x. contains x cs) {x = d} {y = c} (ground (arith, same)),
  )
  | inr other ↦ ground (arith, other, e, contains-erase d c set)
]

distinct_rest : (c : ℕ) (cs : List ℕ) → distinct (c ∷ cs) ≡ true → distinct cs ≡ true
unfolding distinct
distinct_rest c cs h = ground (arith, h)

distinct_first : (c : ℕ) (cs : List ℕ) → distinct (c ∷ cs) ≡ true → contains c cs ≡ false
unfolding distinct
distinct_first c cs h = ground (arith, h)

next-Fair :
    (queue : List ℕ) (l : MultidropTaskLock)
    → l.callback_queue ≡ queue
    → l.is_online ≡ true
    → Fair l
    → Fair (next_active queue l).1
unfolding next_active
next-Fair [] l e up k = record {
  same = k.same;
  once = k.once;
  not_active = λ a h. absurd (ground (arith, h));
  nobody = λ h. e;
  offline = λ h. refl;
}
next-Fair (c ∷ cs) l e up k =
    let once : distinct (c ∷ cs) ≡ true = sym (ap distinct e) ∙ k.once in
    record {
      same = λ d.
          let here : contains d l.callback_set ≡ contains d (c ∷ cs) =
            k.same d ∙ ap (contains d) e in
          erased_same d c cs l.callback_set once here;
      once = distinct_rest c cs once;
      not_active = λ a h.
          ap (λ x. contains x cs) {x = a} {y = c} (ground (arith, h)) ∙ distinct_first c cs once;
      nobody = λ h. absurd (ground (arith, h));
      offline = λ h. absurd (ground (arith, h, up));
    }

pub acquire-Fair : (c : ℕ) (l : MultidropTaskLock) → Fair l → Fair (acquire c l).1
unfolding acquire
acquire-Fair c l k =
    if_intro (l.is_online) (λ (r : Bool × MultidropTaskLock). Fair r.1)
      (λ up. acquire_held-Fair c l.active l refl up k) (λ down. k)

pub release-Fair : (c : ℕ) (l : MultidropTaskLock) → Fair l → Fair (release c l).1
unfolding release
release-Fair c l k =
    if_intro (l.is_online && is_active c l.active) (λ (r : Option ℕ × MultidropTaskLock). Fair r.1)
      (λ held. next-Fair l.callback_queue l refl (ground (arith, held)) k) (λ other. k)

pub on_layer_up-Fair : (l : MultidropTaskLock) → Fair l → Fair (on_layer_up l)
unfolding on_layer_up
on_layer_up-Fair l k =
    if_intro (l.is_online) Fair (λ up. k)
      (λ down. record {
        same = k.same;
        once = k.once;
        not_active = k.not_active;
        nobody = k.nobody;
        offline = λ h. absurd (ground (arith, h));
      })

pub on_layer_down-Fair : (l : MultidropTaskLock) → Fair l → Fair (on_layer_down l)
unfolding on_layer_down distinct
on_layer_down-Fair l k =
    if_intro (l.is_online) Fair
      (λ up. record {
        same = λ c. refl;
        once = refl;
        not_active = λ a h. absurd (ground (arith, h));
        nobody = λ h. refl;
        offline = λ h. refl;
      })
      (λ down. k)

-- The calls that the masters and the channel make.
pub data Call : Type 0 where
  acquires releases : ℕ → Call
  layer_up layer_down : Call

unfoldable pub run : List Call → MultidropTaskLock → MultidropTaskLock
run [] l = l
run (acquires c ∷ calls) l = run calls (acquire c l).1
run (releases c ∷ calls) l = run calls (release c l).1
run (layer_up ∷ calls) l = run calls (on_layer_up l)
run (layer_down ∷ calls) l = run calls (on_layer_down l)

run-Fair : (calls : List Call) (l : MultidropTaskLock) → Fair l → Fair (run calls l)
unfolding run
run-Fair [] l k = k
run-Fair (acquires c ∷ calls) l k = run-Fair calls _ (acquire-Fair c l k)
run-Fair (releases c ∷ calls) l k = run-Fair calls _ (release-Fair c l k)
run-Fair (layer_up ∷ calls) l k = run-Fair calls _ (on_layer_up-Fair l k)
run-Fair (layer_down ∷ calls) l k = run-Fair calls _ (on_layer_down-Fair l k)

-- After any sequence of calls on a new lock, the set holds the callbacks of the queue, each of them
-- once and the active one not among them; nobody waits where no callback is active, and none is
-- active where the layer is down.
pub run_new-Fair : (calls : List Call) → Fair (run calls new_lock)
run_new-Fair calls = run-Fair calls new_lock new_lock-Fair

-- The holder gives the lock back, and so does each that receives it, until the queue in front is empty.
unfoldable pub release_each : List ℕ → ℕ → MultidropTaskLock → MultidropTaskLock
release_each [] holder l = (release holder l).1
release_each (next ∷ before) holder l = release_each before next (release holder l).1

-- Where a callback waits behind others on a lock that is online and held, it holds the lock after
-- the holder and each of the others has released it in turn, and those behind it still wait.
pub release_each-active :
    (before : List ℕ) (holder c : ℕ) (behind : List ℕ) (l : MultidropTaskLock)
    → l.is_online ≡ true
    → l.active ≡ some holder
    → l.callback_queue ≡ before ++ (c ∷ behind)
    → ((release_each before holder l).active ≡ some c)
      × ((release_each before holder l).callback_queue ≡ behind)
unfolding release_each release next_active is_active
release_each-active [] holder c behind l up held e = ground (arith, up, held, e)
release_each-active (next ∷ before) holder c behind l up held e =
    release_each-active before next c behind (release holder l).1 (ground (arith, up, held, e))
      (ground (arith, up, held, e)) (ground (arith, up, held, e))
