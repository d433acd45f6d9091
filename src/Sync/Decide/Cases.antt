-- ===== src/Sync/Decide/Cases.antt =====
-- What each answer of `decide` says about the two sides.
use mathlib.Core.Bool.{false≢true}
use dae_moon.Prelude.{
  ◌<◌, ◌≡◌, ◌≢◌, sym, ap, subst, ◌∙◌, ◌⊎◌, inl, inr, true, false, Bytes, [], ◌∷◌, length, arith,
  Bool-cases, ltb, ◌==◌, ltb→lt, ==→eq,
}
use dae_moon.Util.Digest.{hex_equal, hex_equal_iff, is_end}
use dae_moon.Sync.Decide.{LocalState, RemoteMeta, Action, local_dirty, decide}

-- The same save: one digest of 64 digits on both sides.
abbrev pub SameSave : Bytes → Bytes → Type 0
SameSave a b = (a ≡ b) × (length a ≡ 64)

-- The save is, bit for bit, the one of the last successful sync.
abbrev pub IsUntouched : LocalState → Type 0
IsUntouched l = (l.base_version ≢ 0) × SameSave l.sha256 l.base_sha256

abbrev pub Decides : LocalState → RemoteMeta → Action → Type 0
Decides l r Action.nothing =
    ((l.has_save ≡ false) × (r.exists ≡ false))
    ⊎ ((l.has_save ≡ true) × (r.exists ≡ true) × SameSave l.sha256 r.sha256)
Decides l r Action.upload =
    (l.has_save ≡ true)
    × ((r.exists ≡ false) ⊎ ((l.base_version ≡ r.latest_version) × ¬ IsUntouched l))
Decides l r Action.download =
    (r.exists ≡ true)
    × ((l.has_save ≡ false) ⊎ ((l.base_version < r.latest_version) × IsUntouched l))
Decides l r Action.conflict =
    (l.has_save ≡ true)
    × (r.exists ≡ true)
    × ¬ SameSave l.sha256 r.sha256
    × (((l.base_version ≡ r.latest_version) × IsUntouched l)
        ⊎ ((l.base_version < r.latest_version) × ¬ IsUntouched l)
        ⊎ (r.latest_version < l.base_version))

hex_equal-SameSave : (a b : Bytes) → hex_equal a b ≡ true → SameSave a b
hex_equal-SameSave a b h = (hex_equal_iff a b).0 h

not-SameSave : (a b : Bytes) → hex_equal a b ≡ false → ¬ SameSave a b
not-SameSave a b h s = false≢true (sym h ∙ (hex_equal_iff a b).1 s)

length-is_end : (s : Bytes) → is_end s ≡ true → length s ≡ 0
unfolding is_end
length-is_end [] h = omega arith
length-is_end (c ∷ s) h = cc

clean-IsUntouched : (l : LocalState) → l.has_save ≡ true → local_dirty l ≡ false → IsUntouched l
unfolding local_dirty
clean-IsUntouched l s h =
    (λ e. ground arith, hex_equal-SameSave l.sha256 l.base_sha256 (ground arith))

dirty-not-IsUntouched :
    (l : LocalState) → l.has_save ≡ true → local_dirty l ≡ true → ¬ IsUntouched l
unfolding local_dirty
dirty-not-IsUntouched l s h u = ground (
  arith,
  (hex_equal_iff l.sha256 l.base_sha256).1 u.1,
  length-is_end l.base_sha256,
  ap length u.1.0,
  u.0,
  u.1.1,
)

module _ (l : LocalState) (r : RemoteMeta) where
  by : (a : Action) → decide l r ≡ a → Decides l r a → Decides l r (decide l r)
  by a e d = subst (Decides l r) (sym e) d

  module _ (s : l.has_save ≡ true) (x : r.exists ≡ true)
      (n : hex_equal l.sha256 r.sha256 ≡ false) where
    decide_dirty : local_dirty l ≡ true → Decides l r (decide l r)
    unfolding decide
    decide_dirty d =
        let touched = dirty-not-IsUntouched l s d in
        let differ = not-SameSave l.sha256 r.sha256 n in
        elim (Bool-cases (l.base_version == r.latest_version)) [
          | inl e ↦
              by Action.upload (ground arith)
                (s, inr (==→eq l.base_version r.latest_version e, touched))
          | inr e ↦ elim (Bool-cases (ltb l.base_version r.latest_version)) [
            | inl b ↦
                by Action.conflict (ground arith)
                  (s, x, differ, inr (inl (ltb→lt l.base_version r.latest_version b, touched)))
            | inr b ↦ by Action.conflict (ground arith) (s, x, differ, inr (inr (ground arith)))
          ]
        ]

    decide_clean : local_dirty l ≡ false → Decides l r (decide l r)
    unfolding decide
    decide_clean d =
        let untouched = clean-IsUntouched l s d in
        let differ = not-SameSave l.sha256 r.sha256 n in
        elim (Bool-cases (l.base_version == r.latest_version)) [
          | inl e ↦
              by Action.conflict (ground arith)
                (s, x, differ, inl (==→eq l.base_version r.latest_version e, untouched))
          | inr e ↦ elim (Bool-cases (ltb l.base_version r.latest_version)) [
            | inl b ↦
                by Action.download (ground arith)
                  (x, inr (ltb→lt l.base_version r.latest_version b, untouched))
            | inr b ↦ by Action.conflict (ground arith) (s, x, differ, inr (inr (ground arith)))
          ]
        ]

  -- The action that is chosen fits both sides: nothing moves only if both have the same save or
  -- neither has one; an upload starts from the server's latest version; a download replaces no save
  -- that has not reached the server; and everything else that differs is a conflict.
  pub decide-Decides : Decides l r (decide l r)
  unfolding decide
  decide-Decides = elim (Bool-cases l.has_save) [
    | inr s ↦ elim (Bool-cases r.exists) [
      | inl x ↦ by Action.download (ground arith) (x, inl s)
      | inr x ↦ by Action.nothing (ground arith) (inl (s, x))
    ]
    | inl s ↦ elim (Bool-cases r.exists) [
      | inr x ↦ by Action.upload (ground arith) (s, inl x)
      | inl x ↦ elim (Bool-cases (hex_equal l.sha256 r.sha256)) [
        | inl e ↦
            by Action.nothing (ground arith) (inr (s, x, hex_equal-SameSave l.sha256 r.sha256 e))
        | inr n ↦ elim (Bool-cases (local_dirty l)) [
          | inl d ↦ decide_dirty s x n d
          | inr d ↦ decide_clean s x n d
        ]
      ]
    ]
  ]
