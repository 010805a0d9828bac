-- ===== src/Http/Context/Bounds.antt =====
-- What the readers of a request guarantee.
use laap.Base.{
  Bool-cases, List, Option, String, [], and-true, arith, inl, inr, ltb, none, some, true, ℕ, ◌+◌,
  ◌==◌, ◌∷◌, ◌≡◌, ◌≤◌,
}
use laap.Exec.{ok}
use laap.Exec.Yields.{Anything, Yields-Anything, Yields-ensure, Yields-ok, Yields-weaken}
use laap.Http.Context.{Document, Incoming, Runtime, bounded, query_integer, read_json, within_limit}
use laap.Schema.{Db}

bounded-bounds :
    (n : Option ℕ) (fallback minimum maximum : ℕ)
    → minimum ≤ fallback
    → fallback ≤ maximum
    → (minimum ≤ bounded n fallback minimum maximum)
      × (bounded n fallback minimum maximum ≤ maximum)
bounded-bounds none fallback minimum maximum low high = (low, high)
bounded-bounds (some n) fallback minimum maximum low high = elim (Bool-cases (ltb n minimum)) [
  | inl under ↦ rw under (low, high)
  | inr over ↦
      let at_least : minimum ≤ n = ground arith in
      rw over (omega (arith, at_least, low, high), omega arith)
]

-- Within its minimum and maximum, whatever the query says, if the fallback is.
query_integer-bounds :
    (rt : Runtime) (value : Option String) (fallback minimum maximum : ℕ)
    → minimum ≤ fallback
    → fallback ≤ maximum
    → (minimum ≤ query_integer rt value fallback minimum maximum)
      × (query_integer rt value fallback minimum maximum ≤ maximum)
unfolding query_integer
query_integer-bounds rt none fallback minimum maximum low high = (low, high)
query_integer-bounds rt (some t) fallback minimum maximum low high =
    elim (Bool-cases (rt.zod.trim t == "")) [
      | inl blank ↦ rw blank (low, high)
      | inr given ↦ rw given (bounded-bounds (rt.number t) fallback minimum maximum low high)
    ]

-- the bytes of a body
pub total : List ℕ → ℕ
total [] = 0
total (n ∷ chunks) = n + total chunks

within_limit-sum :
    (seen : ℕ) (chunks : List ℕ)
    → seen ≤ 1048576
    → within_limit seen chunks ≡ true
    → seen + total chunks ≤ 1048576
unfolding within_limit total
within_limit-sum seen [] low h = omega (arith, low)
within_limit-sum seen (n ∷ chunks) low h =
    let (here, later) = and-true _ _ h in
    let rest = within_limit-sum (seen + n) chunks (ground arith) later in omega (arith, rest)

-- A body that is read never has more than 1 MiB in all its chunks, however it declared its length.
pub read_json-limit :
    (body : Incoming) (document : Document) (db db' : Db)
    → read_json body db ≡ ok document db'
    → total body.chunks ≤ 1048576
unfolding read_json
read_json-limit body document db db' e =
    Yields-ok (λ _ _. total body.chunks ≤ 1048576) _ document db'
      (Yields-ensure _ _ _ _ db λ declared. Yields-ensure _ _ _ _ db λ within.
        Yields-weaken Anything (λ _ _. total body.chunks ≤ 1048576) _
          (λ _ _ _. omega (arith, within_limit-sum 0 body.chunks (omega arith) within))
          (Yields-Anything _))
      e
