-- ===== src/Bidengine/Service/Fetcher.antt =====
-- provider/bidengine/service.go: `ordersFetcher`. A turn of its loop is what the query answers, and
-- whether the context is done at the places where it is looked at.
use mathlib.Core.List.{append_assoc}
use rezerve.Base.{
  ℕ, suc, ◌≤◌, ◌≡◌, refl, ◌∙◌, ap, Bool, true, false, not, ◌&&◌, ◌||◌, List, [], ◌∷◌, ◌++◌, map,
  Option, none, some, arith, Text, if◌then◌else◌, ◌==◌, list_eq, nat_eq, length,
}

-- The orders of a page, and the key of the next.
pub record Page (O : Type 0) : Type 0 where
  pub orders : List O
  pub next_key : Text

-- `answer` is `none` on an error of the query; the context may be done after the query, and while the
-- loop waits to try again or to queue the page.
pub record Turn (O : Type 0) : Type 0 where
  pub answer : Text → Option (Page O)
  pub done : Bool
  pub done_waiting : Bool

-- How the fetcher ended, or the key that it asks for next.
pub data Outcome : Type 0 where
  traversed cancelled : Outcome
  next_key_repeated : Text → Outcome
  asking : Text → Outcome

abbrev pub is_empty {ℓ} : {A : Type ℓ} → List A → Bool
is_empty [] = true
is_empty (x ∷ xs) = false

-- What a turn comes to: the query is tried again, the fetcher returns, or a page is queued, the last
-- one or one with another key.
pub data Verdict (O : Type 0) : Type 0 where
  again : Verdict O
  returns : Outcome → Verdict O
  queues_last : List O → Verdict O
  queues : List O → Text → Verdict O

abbrev pub successes : List Bool → ℕ
successes [] = 0
successes (true ∷ bs) = suc (successes bs)
successes (false ∷ bs) = successes bs

module _ {O : Type 0} where
  abbrev pub on_page : Bool → Bool → Text → Page O → Verdict O
  on_page done done_waiting key page =
      if done
      then returns cancelled
      else if not (is_empty page.next_key) && (page.next_key == key)
      then returns (next_key_repeated key)
      else if done_waiting
      then returns cancelled
      else if is_empty page.next_key
      then queues_last page.orders
      else queues page.orders page.next_key

  unfoldable pub turn : Turn O → Text → Verdict O
  turn t key = elim (t.answer key) [
    | none ↦ if t.done || t.done_waiting then returns cancelled else again
    | some page ↦ on_page t.done t.done_waiting key page
  ]

  -- The pages queued, and how the fetcher stands after the turns.
  unfoldable pub orders_fetcher : List (Turn O) → Text → List (List O) → List (List O) × Outcome
  unfolding turn
  orders_fetcher [] key queued = (queued, asking key)
  orders_fetcher (t ∷ ts) key queued = elim (turn t key) [
    | again ↦ orders_fetcher ts key queued
    | returns out ↦ (queued, out)
    | queues_last orders ↦ (queued ++ (orders ∷ []), traversed)
    | queues orders next ↦ orders_fetcher ts next (queued ++ (orders ∷ []))
  ]

  -- The pages of a chain from a key on, none of which names its own key as the next.
  pub data Pages (chain : Text → Option (Page O)) : Text → List (List O) → Type 0 where
    last :
        {key : Text} (orders : List O)
        → chain key ≡ some (record { orders = orders; next_key = [] })
        → Pages chain key (orders ∷ [])
    next :
        {key : Text} {more : List (List O)} (orders : List O) (to : Text)
        → chain key ≡ some (record { orders = orders; next_key = to })
        → is_empty to ≡ false
        → (to == key) ≡ false
        → Pages chain to more
        → Pages chain key (orders ∷ more)

  -- A turn at which the chain answers, or its query fails, and nothing is cancelled.
  abbrev pub answers : (Text → Option (Page O)) → Bool → Turn O
  answers chain works = record {
    answer = λ key. if works then chain key else none;
    done = false;
    done_waiting = false;
  }

  fetch_rest :
      (chain : Text → Option (Page O)) (works : List Bool) (key : Text)
      (queued pages : List (List O))
      → Pages chain key pages
      → length pages ≤ successes works
      → orders_fetcher (map (answers chain) works) key queued ≡ (queued ++ pages, traversed)
  unfolding orders_fetcher turn
  fetch_rest chain [] key queued pages (last orders at) h = absurd (omega (arith, h))
  fetch_rest chain [] key queued pages (next orders to at more other p) h =
      absurd (omega (arith, h))
  fetch_rest chain (false ∷ works) key queued pages p h =
      fetch_rest chain works key queued pages p h
  fetch_rest chain (true ∷ works) key queued pages (last orders at) h =
      let turned : turn (answers chain true) key ≡ queues_last orders = ground (arith, at) in
      rw (orders_fetcher, turned) refl
  fetch_rest chain (true ∷ works) key queued pages (next {more = more} orders to at goes other p)
        h =
      let rest = map (answers chain) works in
      let turned : turn (answers chain true) key ≡ queues orders to =
        ground (arith, at, goes, other) in
      let goes_to : orders_fetcher (answers chain true ∷ rest) key queued
          ≡ orders_fetcher rest to (queued ++ (orders ∷ [])) =
        rw (orders_fetcher, turned) refl in
      goes_to
      ∙ fetch_rest chain works to (queued ++ (orders ∷ [])) more p (omega (arith, h))
      ∙ ap (λ ps. (ps, traversed)) (append_assoc queued (orders ∷ []) more)

  -- Whenever queries fail, the fetcher queues every page of the chain once and in its order, and
  -- returns, as soon as as many queries were answered as there are pages.
  pub fetches_every_page :
      (chain : Text → Option (Page O)) (works : List Bool) (pages : List (List O))
      → Pages chain [] pages
      → length pages ≤ successes works
      → orders_fetcher (map (answers chain) works) [] [] ≡ (pages, traversed)
  fetches_every_page chain works pages p h = fetch_rest chain works [] [] pages p h
