-- ===== src/Channel/Router/Distinct.antt =====
-- The records of a router have different routes and different contexts.
use dnp.Prelude.{
  ℕ, Bool, true, false, not, ◌&&◌, ◌||◌, none, some, List, [], ◌∷◌, ◌++◌, ◌==◌, ◌≡◌, ◌↔◌, refl,
  arith, is_some, sym, ◌∙◌, Bool-cases, inl, inr, Option-cases, if_intro,
}
use dnp.Link.Header.{LinkHeaderFields}
use dnp.Channel.Router.{
  Route, equals, Record, LinkLayerRouter, is_route_in_use, find_record, set_enabled, erase_record,
  add_context, get_enabled_context, on_frame, get_destination,
}

-- No two records have the same route or the same context.
unfoldable pub distinct : List Record → Bool
distinct [] = true
distinct (r ∷ rs) =
    not (is_route_in_use r.route rs) && (not (is_some (find_record r.context rs)) && distinct rs)

-- Whether a record of the context has the route and is enabled.
unfoldable pub serves : ℕ → Route → List Record → Bool
serves c route [] = false
serves c route (r ∷ rs) =
    (r.context == c && (r.enabled && equals r.route route)) || serves c route rs

equals_sym : (r s : Route) → equals r s ≡ equals s r
unfolding equals
equals_sym r s = ground arith

equals_same : (r s t : Route) → equals r s ≡ true → equals t r ≡ equals t s
unfolding equals
equals_same r s t h = ground arith

in_use_same :
    (r s : Route) (rs : List Record)
    → equals r s ≡ true
    → is_route_in_use r rs ≡ is_route_in_use s rs
unfolding is_route_in_use
in_use_same r s [] h = refl
in_use_same r s (x ∷ xs) h = ground (arith, equals_same r s x.route h, in_use_same r s xs h)

in_use-append :
    (route : Route) (rs : List Record) (n : Record)
    → is_route_in_use route (rs ++ (n ∷ [])) ≡ (is_route_in_use route rs || equals n.route route)
unfolding is_route_in_use
in_use-append route [] n = ground arith
in_use-append route (r ∷ rs) n = ground (arith, in_use-append route rs n)

found-append :
    (c : ℕ) (rs : List Record) (n : Record)
    → is_some (find_record c (rs ++ (n ∷ []))) ≡ (is_some (find_record c rs) || n.context == c)
unfolding find_record
found-append c [] n = ground arith
found-append c (r ∷ rs) n = ground (arith, found-append c rs n)

distinct-append :
    (n : Record) (rs : List Record)
    → distinct rs ≡ true
    → is_route_in_use n.route rs ≡ false
    → find_record n.context rs ≡ none
    → distinct (rs ++ (n ∷ [])) ≡ true
unfolding distinct is_route_in_use find_record
distinct-append n [] d u f = refl
distinct-append n (r ∷ rs) d u f = ground (
  arith,
  d,
  u,
  f,
  in_use-append r.route rs n,
  found-append r.context rs n,
  equals_sym r.route n.route,
  distinct-append n rs,
)

in_use-set_enabled :
    (c : ℕ) (v : Bool) (route : Route) (rs : List Record)
    → is_route_in_use route (set_enabled c v rs) ≡ is_route_in_use route rs
unfolding is_route_in_use set_enabled
in_use-set_enabled c v route [] = refl
in_use-set_enabled c v route (r ∷ rs) = ground (arith, in_use-set_enabled c v route rs)

found-set_enabled :
    (c : ℕ) (v : Bool) (d : ℕ) (rs : List Record)
    → is_some (find_record d (set_enabled c v rs)) ≡ is_some (find_record d rs)
unfolding find_record set_enabled
found-set_enabled c v d [] = refl
found-set_enabled c v d (r ∷ rs) = ground (arith, found-set_enabled c v d rs)

pub distinct-set_enabled :
    (c : ℕ) (v : Bool) (rs : List Record) → distinct (set_enabled c v rs) ≡ distinct rs
unfolding distinct set_enabled
distinct-set_enabled c v [] = refl
distinct-set_enabled c v (r ∷ rs) = ground (
  arith,
  in_use-set_enabled c v r.route rs,
  found-set_enabled c v r.context rs,
  distinct-set_enabled c v rs,
)

in_use-erase :
    (c : ℕ) (route : Route) (rs : List Record)
    → is_route_in_use route rs ≡ false
    → is_route_in_use route (erase_record c rs) ≡ false
unfolding is_route_in_use erase_record
in_use-erase c route [] h = refl
in_use-erase c route (r ∷ rs) h = ground (arith, h, in_use-erase c route rs)

found-erase :
    (c d : ℕ) (rs : List Record)
    → is_some (find_record d rs) ≡ false
    → is_some (find_record d (erase_record c rs)) ≡ false
unfolding find_record erase_record
found-erase c d [] h = refl
found-erase c d (r ∷ rs) h = ground (arith, h, found-erase c d rs)

pub distinct-erase :
    (c : ℕ) (rs : List Record) → distinct rs ≡ true → distinct (erase_record c rs) ≡ true
unfolding distinct erase_record
distinct-erase c [] d = refl
distinct-erase c (r ∷ rs) d =
    ground (arith, d, in_use-erase c r.route rs, found-erase c r.context rs, distinct-erase c rs)

pub distinct-add_context :
    (c : ℕ) (route : Route) (l : LinkLayerRouter)
    → distinct l.records ≡ true
    → distinct (add_context c route l).1.records ≡ true
unfolding add_context
distinct-add_context c route l d =
    if_intro (is_route_in_use route l.records)
      (λ (x : Bool × LinkLayerRouter). distinct x.1.records ≡ true) (λ used. d)
      (λ free. elim (Option-cases (find_record c l.records)) [
        | inl e ↦ rw e (distinct-append _ l.records d free e)
        | inr (r, e) ↦ rw e d
      ])

-- A route that no record has is served by none.
unused_serves :
    (c : ℕ) (route : Route) (rs : List Record)
    → is_route_in_use route rs ≡ false
    → (serves c route rs ≡ false) × (get_enabled_context route rs ≡ none)
unfolding serves is_route_in_use get_enabled_context
unused_serves c route [] h = (refl, refl)
unused_serves c route (r ∷ rs) h = ground (arith, h, unused_serves c route rs)

-- The context found for a route.
get_enabled_context-serves :
    (c : ℕ) (route : Route) (rs : List Record)
    → distinct rs ≡ true
    → (get_enabled_context route rs ≡ some c) ↔ (serves c route rs ≡ true)
unfolding distinct serves get_enabled_context
get_enabled_context-serves c route [] d = ground arith
get_enabled_context-serves c route (r ∷ rs) d = elim (Bool-cases (equals r.route route)) [
  | inl same ↦ ground (
    arith,
    d,
    same,
    unused_serves c route rs (sym (in_use_same r.route route rs same) ∙ ground (arith, d)),
  )
  | inr other ↦ ground (arith, d, other, get_enabled_context-serves c route rs)
]

-- In a router whose records have different routes, a frame is given to exactly the context that has
-- an enabled record whose destination is the frame's source and whose source is the frame's
-- destination.
pub on_frame-serves :
    (c : ℕ) (header : LinkHeaderFields) (l : LinkLayerRouter)
    → distinct l.records ≡ true
    → (on_frame header l ≡ some c)
      ↔ (serves c (record { destination = header.src; source = header.dest }) l.records ≡ true)
unfolding on_frame get_destination
on_frame-serves c header l d =
    get_enabled_context-serves c (record { destination = header.src; source = header.dest })
      l.records d
