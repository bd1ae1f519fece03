-- ===== src/Announce/Inventory/Steps.antt =====
-- The callers of `request` and the worker thread as interleaved steps over one `InventoryCache`.
-- A caller marks a key under the lock and puts it in the queue later; between the two the key is
-- on its way. The worker takes the oldest request, measures, and finishes under the lock.
use orochi.Prelude.{
  ℕ, ◌+◌, ◌≤◌, true, false, List, [], ◌∷◌, ◌++◌, ◌≡◌, refl, ap, inl, inr, arith, if◌then◌else◌,
  Bool-cases,
}
use orochi.Text.{Text, same, member}
use orochi.Text.Equal.{same_iff, same_refl}
use orochi.Announce.Inventory.{
  BuildInventory, Cache, empty_cache, mark, enqueue, request, finish, discard,
}

pub record System : Type 0 where
  pub cache : Cache
  -- Keys marked by some thread that has not put them in the queue yet.
  pub on_the_way : List Text
  -- The key that the worker has taken.
  pub working : List Text

abbrev pub start : System
start = record { cache = empty_cache; on_the_way = []; working = [] }

pub data Step : System → System → Type 0 where
  -- `request` finds its key queued and returns.
  skip : (s : System) (k : Text) → member k s.cache.queued ≡ true → Step s s
  marks :
      (s : System) (k : Text)
      → member k s.cache.queued ≡ false
      → Step s (record s { cache = mark k s.cache; on_the_way = k ∷ s.on_the_way })
  puts :
      (s : System) (k : Text) (before behind : List Text)
      → s.on_the_way ≡ before ++ (k ∷ behind)
      → Step s (record s { cache = enqueue k s.cache; on_the_way = before ++ behind })
  takes :
      (s : System) (k : Text) (rest : List Text)
      → s.working ≡ []
      → s.cache.requests ≡ k ∷ rest
      → Step s (record s { cache = record s.cache { requests = rest }; working = k ∷ [] })
  finishes :
      (s : System) (k : Text) (i : BuildInventory)
      → s.working ≡ k ∷ []
      → Step s (record s { cache = finish k i s.cache; working = [] })

pub data Reach : System → Type 0 where
  here : Reach start
  next : {s t : System} → Reach s → Step s t → Reach t

-- How often the key stands in the list.
abbrev pub count : Text → List Text → ℕ
count k [] = 0
count k (x ∷ xs) = (if same k x then 1 else 0) + count k xs

count-append : (k : Text) (xs ys : List Text) → count k (xs ++ ys) ≡ count k xs + count k ys
count-append k [] ys = omega arith
count-append k (x ∷ xs) ys = omega (arith, count-append k xs ys)

count_self : (k : Text) (xs : List Text) → 1 ≤ count k (k ∷ xs)
count_self k xs = ground (arith, same_refl k)

count_of_member : (k : Text) (xs : List Text) → member k xs ≡ true → 1 ≤ count k xs
unfolding member
count_of_member k [] h = cc
count_of_member k (x ∷ xs) h = ground (arith, count_of_member k xs)

count_of_not_member : (k : Text) (xs : List Text) → member k xs ≡ false → count k xs ≡ 0
unfolding member
count_of_not_member k [] h = refl
count_of_not_member k (x ∷ xs) h = ground (arith, count_of_not_member k xs)

count-discard_self : (k : Text) (xs : List Text) → count k (discard k xs) ≡ 0
unfolding discard
count-discard_self k [] = refl
count-discard_self k (x ∷ xs) = ground (arith, count-discard_self k xs)

count-discard_ne :
    (k j : Text) (xs : List Text) → same k j ≡ false → count k (discard j xs) ≡ count k xs
unfolding discard
count-discard_ne k j [] n = refl
count-discard_ne k j (x ∷ xs) n =
    ground (arith, count-discard_ne k j xs n, same_iff j x, same_iff k x, same_iff k j)

-- The places where a request for the key can be: on its way, in the queue, with the worker.
abbrev pub places : Text → System → ℕ
places k s = count k s.on_the_way + count k s.cache.requests + count k s.working

-- A key is marked as queued exactly while one request for it is somewhere, and never twice.
pub record Inv (s : System) : Type 0 where
  pub placed : (k : Text) → places k s ≡ count k s.cache.queued
  pub once : (k : Text) → count k s.cache.queued ≤ 1

mark-Inv :
    (s : System) (k : Text)
    → member k s.cache.queued ≡ false
    → Inv s
    → Inv (record s { cache = mark k s.cache; on_the_way = k ∷ s.on_the_way })
unfolding mark
mark-Inv s k n inv = record {
  placed = λ j. omega (arith, inv.placed j);
  once = λ j. ground (arith, inv.once j, count_of_not_member k s.cache.queued n, same_iff j k);
}

puts-Inv :
    (s : System) (k : Text) (before behind : List Text)
    → s.on_the_way ≡ before ++ (k ∷ behind)
    → Inv s
    → Inv (record s { cache = enqueue k s.cache; on_the_way = before ++ behind })
unfolding enqueue
puts-Inv s k before behind e inv = record {
  placed = λ j.
      let way : count j s.on_the_way ≡ count j (before ++ (k ∷ behind)) = ap (count j) e in
      omega (
        arith,
        inv.placed j,
        way,
        count-append j before (k ∷ behind),
        count-append j before behind,
        count-append j s.cache.requests (k ∷ []),
      );
  once = inv.once;
}

takes-Inv :
    (s : System) (k : Text) (rest : List Text)
    → s.working ≡ []
    → s.cache.requests ≡ k ∷ rest
    → Inv s
    → Inv (record s { cache = record s.cache { requests = rest }; working = k ∷ [] })
takes-Inv s k rest e f inv = record {
  placed = λ j. omega (arith, inv.placed j, ap (count j) e, ap (count j) f);
  once = inv.once;
}

finish-placed :
    (s : System) (k j : Text) (i : BuildInventory)
    → s.working ≡ k ∷ []
    → Inv s
    → count j s.on_the_way + count j s.cache.requests + 0 ≡ count j (discard k s.cache.queued)
finish-placed s k j i e inv = elim (Bool-cases (same j k)) [
  | inl h ↦
      let e' : j ≡ k = (same_iff j k).0 h in
      ground (arith, inv.placed j, inv.once j, ap (count j) e, count-discard_self k s.cache.queued)
  | inr h ↦ ground (arith, inv.placed j, ap (count j) e, count-discard_ne j k s.cache.queued h)
]

finish-once : (s : System) (k j : Text) → Inv s → count j (discard k s.cache.queued) ≤ 1
finish-once s k j inv = elim (Bool-cases (same j k)) [
  | inl h ↦
      let e' : j ≡ k = (same_iff j k).0 h in ground (arith, count-discard_self k s.cache.queued)
  | inr h ↦ ground (arith, inv.once j, count-discard_ne j k s.cache.queued h)
]

finishes-Inv :
    (s : System) (k : Text) (i : BuildInventory)
    → s.working ≡ k ∷ []
    → Inv s
    → Inv (record s { cache = finish k i s.cache; working = [] })
unfolding finish
finishes-Inv s k i e inv = record {
  placed = λ j. finish-placed s k j i e inv;
  once = λ j. finish-once s k j inv;
}

Step-Inv : {s t : System} → Step s t → Inv s → Inv t
Step-Inv (skip s k h) inv = inv
Step-Inv (marks s k h) inv = mark-Inv s k h inv
Step-Inv (puts s k before behind e) inv = puts-Inv s k before behind e inv
Step-Inv (takes s k rest e f) inv = takes-Inv s k rest e f inv
Step-Inv (finishes s k i e) inv = finishes-Inv s k i e inv

-- In every reachable state of the cache each key has at most one request, counting those on their
-- way, in the queue and with the worker, and it has one exactly if it is marked as queued.
pub Reach-Inv : {s : System} → Reach s → Inv s
Reach-Inv here = record { placed = λ k. refl; once = λ k. omega arith }
Reach-Inv (next r st) = Step-Inv st (Reach-Inv r)

-- In every reachable state, a request for the key that the worker is measuring changes nothing: no
-- second measurement is queued.
pub request_while_working :
    {s : System} (k : Text) → Reach s → s.working ≡ k ∷ [] → request k s.cache ≡ s.cache
unfolding request
request_while_working {s} k r e = elim (Bool-cases (member k s.cache.queued)) [
  | inl h ↦ rw h
  | inr h ↦ absurd (
      omega (
        arith,
        (Reach-Inv r).placed k,
        count_of_not_member k s.cache.queued h,
        ap (count k) e,
        count_self k [],
      ))
]
