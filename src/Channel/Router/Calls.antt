-- ===== src/Channel/Router/Calls.antt =====
-- Every call of LinkLayerRouter keeps the invariant and the order.
use dnp.Prelude.{
  ℕ, Bool, true, false, ◌&&◌, some, List, [], ◌∷◌, ◌++◌, if◌then◌else◌, ◌≡◌, refl, arith, ap, ◌∙◌,
  Bool-cases, inl, inr, Option-cases, if_intro,
}
use dnp.Channel.Router.{
  Route, Record, LinkLayerRouter, Action, layer_up, layer_down, transmit_result, begin_write,
  begin_read, start_request, suspend_request, find_record, set_enabled, erase_record, check_suspend,
  add_context, enable, disable, remove, tell_up, on_lower_layer_up, on_lower_layer_down,
  is_route_in_use,
}
use dnp.Channel.Router.Distinct.{
  distinct, distinct-add_context, distinct-set_enabled, distinct-erase,
}
use dnp.Channel.Router.Events.{
  Event, step, idle, Valid, results, written, Kept, accepted, is_steady, adds, enables, disables,
  removes, transmits, sent, goes_up, goes_down,
}
use dnp.Channel.Router.Queue.{Stepped, transmit-Stepped, quiet, sent-Stepped}

unfoldable pub Quiet : List Action → Type 0
Quiet actions = (results actions ≡ []) × (written actions ≡ [])

tell_up-Quiet : (rs : List Record) → Quiet (tell_up rs)
unfolding Quiet tell_up results written
tell_up-Quiet [] = (refl, refl)
tell_up-Quiet (r ∷ rs) = ground (arith, tell_up-Quiet rs)

Quiet-Stepped :
    (l : LinkLayerRouter) (records : List Record) (actions : List Action)
    → Valid l
    → distinct records ≡ true
    → Quiet actions
    → Stepped l [] (actions, record l { records = records })
unfolding Stepped Quiet
Quiet-Stepped l records actions v d q = (
  record { separate = d; front = v.front; down = v.down },
  λ up. (up, quiet l (record l { records = records }) actions refl refl q.0 q.1),
)

check_suspend-Quiet : (rs : List Record) → Quiet (check_suspend rs)
unfolding Quiet check_suspend results written
check_suspend-Quiet rs = ground arith

same-Stepped : (l : LinkLayerRouter) → Valid l → Stepped l [] ([], l)
unfolding Quiet results written
same-Stepped l v = Quiet-Stepped l l.records [] v v.separate (refl, refl)

add-Stepped :
    (c : ℕ) (route : Route) (l : LinkLayerRouter)
    → Valid l
    → Stepped l [] ([], (add_context c route l).1)
unfolding add_context Quiet results written
add-Stepped c route l v =
    let d = distinct-add_context c route l v.separate in
    if_intro (is_route_in_use route l.records)
      (λ (x : Bool × LinkLayerRouter). distinct x.1.records ≡ true → Stepped l [] ([], x.1))
      (λ used d. same-Stepped l v)
      (λ free. elim (Option-cases (find_record c l.records)) [
        | inl e ↦ rw e (λ d. Quiet-Stepped l _ [] v d (refl, refl))
        | inr (r, e) ↦ rw e (λ d. same-Stepped l v)
      ])
      d

pub results-append : (xs ys : List Action) → results (xs ++ ys) ≡ results xs ++ results ys
unfolding results
results-append [] ys = refl
results-append (transmit_result c result ∷ xs) ys = ap (λ zs. c ∷ zs) (results-append xs ys)
results-append (layer_up c ∷ xs) ys = results-append xs ys
results-append (layer_down c ∷ xs) ys = results-append xs ys
results-append (begin_write buffer ∷ xs) ys = results-append xs ys
results-append (begin_read ∷ xs) ys = results-append xs ys
results-append (start_request ∷ xs) ys = results-append xs ys
results-append (suspend_request ∷ xs) ys = results-append xs ys

pub written-append : (xs ys : List Action) → written (xs ++ ys) ≡ written xs ++ written ys
unfolding written
written-append [] ys = refl
written-append (transmit_result c result ∷ xs) ys = written-append xs ys
written-append (layer_up c ∷ xs) ys = written-append xs ys
written-append (layer_down c ∷ xs) ys = written-append xs ys
written-append (begin_write buffer ∷ xs) ys = ap (λ zs. buffer ∷ zs) (written-append xs ys)
written-append (begin_read ∷ xs) ys = written-append xs ys
written-append (start_request ∷ xs) ys = written-append xs ys
written-append (suspend_request ∷ xs) ys = written-append xs ys

told-Quiet :
    (told : Bool) (action : Action) (others : List Action)
    → Quiet (action ∷ [])
    → Quiet others
    → Quiet ((if told then action ∷ [] else []) ++ others)
unfolding Quiet results written
told-Quiet true action others q r = (
  results-append (action ∷ []) others ∙ ap (λ zs. zs ++ results others) q.0 ∙ r.0,
  written-append (action ∷ []) others ∙ ap (λ zs. zs ++ written others) q.1 ∙ r.1,
)
told-Quiet false action others q r = r

enable-Stepped :
    (c : ℕ) (l : LinkLayerRouter) → Valid l → Stepped l [] ((enable c l).1, (enable c l).2)
unfolding enable Quiet results written
enable-Stepped c l v = elim (Option-cases (find_record c l.records)) [
  | inl e ↦ rw (e, enable) (same-Stepped l v)
  | inr (r, e) ↦
      rw (e, enable)
        (if_intro r.enabled (λ (x : Bool × List Action × LinkLayerRouter). Stepped l [] (x.1, x.2))
          (λ on. same-Stepped l v)
          (λ off.
            Quiet-Stepped l (set_enabled c true l.records) _ v
              (distinct-set_enabled c true l.records ∙ v.separate)
              (told-Quiet l.is_online (layer_up c) (start_request ∷ []) (refl, refl) (refl, refl))))
]

disable-Stepped :
    (c : ℕ) (l : LinkLayerRouter) → Valid l → Stepped l [] ((disable c l).1, (disable c l).2)
unfolding disable Quiet results written
disable-Stepped c l v = elim (Option-cases (find_record c l.records)) [
  | inl e ↦ rw (e, disable) (same-Stepped l v)
  | inr (r, e) ↦
      rw (e, disable)
        (if_intro r.enabled (λ (x : Bool × List Action × LinkLayerRouter). Stepped l [] (x.1, x.2))
          (λ on.
            Quiet-Stepped l (set_enabled c false l.records) _ v
              (distinct-set_enabled c false l.records ∙ v.separate)
              (told-Quiet l.is_online (layer_down c) (check_suspend (set_enabled c false l.records))
                (refl, refl) (check_suspend-Quiet (set_enabled c false l.records))))
          (λ off. same-Stepped l v))
]

remove-Stepped :
    (c : ℕ) (is_open : Bool) (l : LinkLayerRouter)
    → Valid l
    → Stepped l [] ((remove c is_open l).1, (remove c is_open l).2)
unfolding remove Quiet results written
remove-Stepped c is_open l v = elim (Option-cases (find_record c l.records)) [
  | inl e ↦ rw (e, remove) (same-Stepped l v)
  | inr (r, e) ↦
      rw (e, remove)
        (Quiet-Stepped l (erase_record c l.records) _ v (distinct-erase c l.records v.separate) (
          told-Quiet (is_open && r.enabled) (layer_down c)
            (check_suspend (erase_record c l.records)) (refl, refl)
            (check_suspend-Quiet (erase_record c l.records))))
]

unfoldable pub Moved : Event → LinkLayerRouter → List Action × LinkLayerRouter → Type 0
Moved e l x =
    Valid x.1
    × (is_steady e ≡ true → l.is_online ≡ true → (x.1.is_online ≡ true) × Kept l (accepted e) x)

steady :
    (e : Event) (l : LinkLayerRouter) (x : List Action × LinkLayerRouter)
    → Stepped l (accepted e) x
    → Moved e l x
unfolding Stepped Moved
steady e l x s = (s.0, λ h. s.1)

up-Moved :
    (can_read : Bool) (l : LinkLayerRouter)
    → Valid l
    → Moved (goes_up can_read) l (on_lower_layer_up can_read l)
unfolding Moved on_lower_layer_up Quiet accepted results written
up-Moved can_read l v =
    let q =
      told-Quiet can_read begin_read (tell_up l.records) (refl, refl) (tell_up-Quiet l.records) in
    (
      record { separate = v.separate; front = v.front; down = refl },
      λ s up. (refl, quiet l (record l { is_online = true }) _ refl refl q.0 q.1),
    )

down-Moved : (l : LinkLayerRouter) → Valid l → Moved goes_down l (on_lower_layer_down l)
unfolding Moved on_lower_layer_down idle is_steady
down-Moved l v =
    (record { separate = v.separate; front = refl; down = refl }, λ s. absurd (ground (arith, s)))

if_true {ℓ} : {A : Type ℓ} (b : Bool) (x y : A) → b ≡ true → (if b then x else y) ≡ x
if_true true x y h = refl
if_true false x y h = absurd (ground (arith, h))

-- Every call returns, and it keeps the invariant.
pub step-Moved :
    (e : Event) (l : LinkLayerRouter)
    → Valid l
    → (x : List Action × LinkLayerRouter) × (step e l ≡ some x) × Moved e l x
unfolding step accepted
step-Moved (adds c route) l v = (_, refl, steady (adds c route) l _ (add-Stepped c route l v))
step-Moved (enables c) l v = (_, refl, steady (enables c) l _ (enable-Stepped c l v))
step-Moved (disables c) l v = (_, refl, steady (disables c) l _ (disable-Stepped c l v))
step-Moved (removes c is_open) l v =
    (_, refl, steady (removes c is_open) l _ (remove-Stepped c is_open l v))
step-Moved (transmits tx can_write) l v =
    (_, refl, steady (transmits tx can_write) l _ (transmit-Stepped tx can_write l v))
step-Moved (sent result can_write) l v = elim (Bool-cases l.is_transmitting) [
  | inl t ↦
      (let s = sent-Stepped result can_write l.transmit_queue l refl v t in
        (s.0, if_true l.is_transmitting _ _ t ∙ s.1, steady (sent result can_write) l s.0 s.2))
  | inr t ↦ (([], l), rw t refl, steady (sent result can_write) l ([], l) (same-Stepped l v))
]
step-Moved (goes_up can_read) l v = (_, refl, up-Moved can_read l v)
step-Moved goes_down l v = (_, refl, down-Moved l v)
