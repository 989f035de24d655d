-- ===== src/Dict.antt =====
-- Python's `dict` with text keys, in insertion order: an assignment to a key that is there keeps
-- the key's place, a new key goes to the end, and `del` takes the entry out.
use yasin_core.Prelude.{
  String, ◌≡◌, refl, Bool, true, false, Option, none, some, List, [], ◌∷◌, ◌++◌, arith, ◌==◌,
  eq_iff, if◌then◌else◌, Bool-cases, inl, inr, length, ap, suc,
}
use yasin_core.Prelude.Counting.{elem, without}
use mathlib.Core.Option

abbrev pub Dict {ℓ} : Type ℓ → Type ℓ
Dict V = List (String × V)

module _ {ℓ} {V : Type ℓ} where
  -- d.get(k)
  unfoldable pub get : Dict V → String → Option V
  get [] k = none
  get ((j, v) ∷ d) k = if j == k then some v else get d k

  -- d.get(k, x)
  unfoldable pub get_or : Dict V → String → V → V
  get_or [] k x = x
  get_or ((j, v) ∷ d) k x = if j == k then v else get_or d k x

  -- d[k] = v
  unfoldable pub put : Dict V → String → V → Dict V
  put [] k v = (k, v) ∷ []
  put ((j, w) ∷ d) k v = if j == k then (j, v) ∷ d else (j, w) ∷ put d k v

  -- del d[k], d.pop(k, None): the keys of a dict are distinct, and every entry of `k` goes
  unfoldable pub remove : Dict V → String → Dict V
  remove [] k = []
  remove ((j, w) ∷ d) k = let rest = remove d k in if j == k then rest else (j, w) ∷ rest

  -- d[k] = f(d[k]), for a key that is there
  unfoldable pub adjust : (V → V) → Dict V → String → Dict V
  adjust f [] k = []
  adjust f ((j, w) ∷ d) k = if j == k then (j, f w) ∷ d else (j, w) ∷ adjust f d k

  -- list(d.keys())
  unfoldable pub keys : Dict V → List String
  keys [] = []
  keys ((j, w) ∷ d) = j ∷ keys d

  -- list(d.values())
  unfoldable pub values : Dict V → List V
  values [] = []
  values ((j, w) ∷ d) = w ∷ values d

  -- k in d
  unfoldable pub has : Dict V → String → Bool
  unfolding elem keys
  has d k = elem k (keys d)

module _ {ℓ} {V : Type ℓ} where
  pub get-put :
      (d : Dict V) (k j : String) (v : V) → get (put d k v) j ≡ (if k == j then some v else get d j)
  unfolding get put
  get-put [] k j v = refl
  get-put ((i, w) ∷ d) k j v = ground (arith, get-put d k j v, eq_iff i k, eq_iff i j, eq_iff k j)

  pub get-remove :
      (d : Dict V) (k j : String) → get (remove d k) j ≡ (if k == j then none else get d j)
  unfolding get remove
  get-remove [] k j = ground arith
  get-remove ((i, w) ∷ d) k j = ground (arith, get-remove d k j, eq_iff i k, eq_iff i j, eq_iff k j)

  pub get-adjust :
      (f : V → V) (d : Dict V) (k j : String)
      → get (adjust f d k) j ≡ (if k == j then Option.map f (get d j) else get d j)
  unfolding get adjust
  get-adjust f [] k j = ground arith
  get-adjust f ((i, w) ∷ d) k j =
      ground (arith, get-adjust f d k j, eq_iff i k, eq_iff i j, eq_iff k j)

  pub get_or-none : (d : Dict V) (k : String) (x : V) → get d k ≡ none → get_or d k x ≡ x
  unfolding get get_or
  get_or-none [] k x h = refl
  get_or-none ((i, w) ∷ d) k x h = ground (arith, get_or-none d k x)

  pub get_or-get : (d : Dict V) (k : String) (x v : V) → get d k ≡ some v → get_or d k x ≡ v
  unfolding get get_or
  get_or-get [] k x v h = cc
  get_or-get ((i, w) ∷ d) k x v h = ground (arith, get_or-get d k x v)

  pub get_or-put :
      (d : Dict V) (k j : String) (v x : V)
      → get_or (put d k v) j x ≡ (if k == j then v else get_or d j x)
  unfolding get_or put
  get_or-put [] k j v x = refl
  get_or-put ((i, w) ∷ d) k j v x =
      ground (arith, get_or-put d k j v x, eq_iff i k, eq_iff i j, eq_iff k j)

  -- An assignment to a key that is there leaves the keys alone.
  pub keys-put : (d : Dict V) (k : String) (v : V) → has d k ≡ true → keys (put d k v) ≡ keys d
  unfolding has keys put
  keys-put [] k v h = cc
  keys-put ((i, w) ∷ d) k v h = ground (arith, keys-put d k v)

  pub keys-adjust : (f : V → V) (d : Dict V) (k : String) → keys (adjust f d k) ≡ keys d
  unfolding keys adjust
  keys-adjust f [] k = refl
  keys-adjust f ((i, w) ∷ d) k = ground (arith, keys-adjust f d k)

  pub has-get : (d : Dict V) (k : String) → has d k ≡ true → (v : V) × (get d k ≡ some v)
  unfolding has keys elem get
  has-get [] k h = absurd (cc)
  has-get ((i, w) ∷ d) k h = elim (Bool-cases (i == k)) [
    | inl here ↦ (w, rw here)
    | inr there ↦ rw there (has-get d k (rw there at h))
  ]

  pub get-has : (d : Dict V) (k : String) (v : V) → get d k ≡ some v → has d k ≡ true
  unfolding has keys get
  get-has [] k v h = cc
  get-has ((i, w) ∷ d) k v h = ground (arith, get-has d k v)

  pub get-absent : (d : Dict V) (k : String) → has d k ≡ false → get d k ≡ none
  unfolding has keys elem get
  get-absent [] k h = refl
  get-absent ((i, w) ∷ d) k h = ground (arith, get-absent d k)

  pub length-keys : (d : Dict V) → length (keys d) ≡ length d
  unfolding keys
  length-keys [] = refl
  length-keys ((i, w) ∷ d) = ap suc (length-keys d)

  -- A new key goes to the end.
  pub keys-put_new :
      (d : Dict V) (k : String) (v : V) → has d k ≡ false → keys (put d k v) ≡ keys d ++ k ∷ []
  unfolding has elem keys put
  keys-put_new [] k v h = refl
  keys-put_new ((i, w) ∷ d) k v h = ground (arith, keys-put_new d k v)

  pub keys-remove : (d : Dict V) (k : String) → keys (remove d k) ≡ without k (keys d)
  unfolding keys remove without
  keys-remove [] k = refl
  keys-remove ((i, w) ∷ d) k = ground (arith, keys-remove d k)

-- Dicts with the same keys hold the same keys.
pub has_of_keys {ℓ κ} :
    {V : Type ℓ} {W : Type κ} (d : Dict V) (e : Dict W) (k : String)
    → keys d ≡ keys e
    → has d k ≡ has e k
unfolding has
has_of_keys d e k h = ap (elem k) h
