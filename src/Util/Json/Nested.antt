-- ===== src/Util/Json/Nested.antt =====
-- daemoon_json_find of core/src/util/json.c as the index that it returns, for an object inside another.
use dae_moon.Prelude.{
  ℕ, zero, suc, ◌+◌, ◌≡◌, refl, Option, none, some, List, [], ◌∷◌, Bytes, drop, get_elem?,
  if◌then◌else◌, Bool-cases, inl, inr, arith, ap, ◌∙◌,
}
use dae_moon.Util.Json.{Token, is_key, is_object, find_value, find}

-- The loop over the tokens from number `i` on.
unfoldable pub index_from : Bytes → ℕ → Bytes → ℕ → List Token → Option ℕ
unfolding is_key
index_from js obj key i [] = none
index_from js obj key i (t ∷ []) = none
index_from js obj key i (t ∷ v ∷ ts) =
    if is_key js obj key t then some (suc i) else index_from js obj key (suc i) (v ∷ ts)

-- daemoon_json_find; `none` is -1.
unfoldable pub find_index : Bytes → List Token → ℕ → Bytes → Option ℕ
unfolding index_from is_object
find_index js toks obj key = elim (get_elem? toks obj) [
  | none ↦ none
  | some o ↦
      if is_object o.kind then index_from js obj key (suc obj) (drop (suc obj) toks) else none
]

abbrev pub at {ℓ} : {A : Type ℓ} → List A → Option ℕ → Option A
at xs none = none
at xs (some i) = get_elem? xs i

at-index_from :
    (js : Bytes) (obj : ℕ) (key : Bytes) (all ts : List Token) (i : ℕ)
    → ((k : ℕ) → get_elem? all (i + k) ≡ get_elem? ts k)
    → at all (index_from js obj key i ts) ≡ find_value js obj key ts
unfolding index_from find_value
at-index_from js obj key all [] i h = refl
at-index_from js obj key all (t ∷ []) i h = refl
at-index_from js obj key all (t ∷ v ∷ ts) i h = elim (Bool-cases (is_key js obj key t)) [
  | inl e ↦ rw e (rw (← one_more i) (h 1))
  | inr e ↦
      rw e (at-index_from js obj key all (v ∷ ts) (suc i) (λ k. rw (← shifted i k) (h (suc k))))
]
  where
    one_more : (i : ℕ) → i + 1 ≡ suc i
    one_more i = omega arith

    shifted : (i k : ℕ) → i + suc k ≡ suc i + k
    shifted i k = omega arith

get_elem?-drop : (n : ℕ) (xs : List Token) (k : ℕ) → get_elem? xs (n + k) ≡ get_elem? (drop n xs) k
get_elem?-drop zero xs k = ap (get_elem? xs) (omega arith)
get_elem?-drop (suc n) [] k = refl
get_elem?-drop (suc n) (x ∷ xs) k = ap (get_elem? (x ∷ xs)) more ∙ get_elem?-drop n xs k
  where
    more : suc n + k ≡ suc (n + k)
    more = omega arith

-- The token that a lookup finds is the one at the index.
pub find-find_index :
    (js : Bytes) (toks : List Token) (obj : ℕ) (key : Bytes)
    → at toks (find_index js toks obj key) ≡ find js toks obj key
unfolding find_index find
find-find_index js toks obj key = ground (
  arith,
  at-index_from js obj key toks (drop (suc obj) toks) (suc obj) (get_elem?-drop (suc obj) toks),
)
