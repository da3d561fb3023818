-- ===== src/Router/Redis.antt =====
-- What the services ask of Redis and of encoding/json: an unknown store with its documented behaviour.
-- Times are in nanoseconds; every command is told the time at which it runs.
use vks.Common.{
  ℕ, ◌+◌, ◌≤◌, ◌<◌, ◌≡◌, ◌⊎◌, ◌∙◌, ◌==◌, false, inl, inr, Option, none, some, List, Result, ok, err,
}
use vks.Common.GoString.{GoString, string_eq}

pub record Redis : Type 1 where
  pub State : Type 0
  -- SET key value with a time to live; the error, if any
  pub set : ℕ → GoString → GoString → ℕ → State → Option GoString × State
  -- GET key; `none` is redis.Nil
  pub get : ℕ → GoString → State → Result GoString (Option GoString)
  -- KEYS prefix*
  pub keys : ℕ → GoString → State → Result GoString (List GoString)

-- A value that was set is read back until it expires, and a SET leaves every other key as it was, if the
-- command that reads gets through.
pub record IsLawful (R : Redis) : Type 0 where
  pub get-set :
      (t t' ttl : ℕ) (k v : GoString) (s s' : R.State)
      → R.set t k v ttl s ≡ (none, s')
      → t ≤ t'
      → t' < t + ttl
      → (R.get t' k s' ≡ ok (some v)) ⊎ ((e : GoString) × (R.get t' k s' ≡ err e))
  pub get-set_other :
      (t t' ttl : ℕ) (k k' v : GoString) (s : R.State)
      → (k == k') ≡ false
      → let s' = (R.set t k v ttl s).1 in
        (R.get t' k' s' ≡ R.get t' k' s) ⊎ ((e : GoString) × (R.get t' k' s' ≡ err e))

-- What is left of a state when only keys other than `k` have been written since.
pub data Since (R : Redis) (k : GoString) (s : R.State) : R.State → Type 0 where
  untouched : Since R k s s
  written :
      (now ttl : ℕ) (other v : GoString) {t : R.State}
      → (other == k) ≡ false
      → Since R k s t
      → Since R k s (R.set now other v ttl t).1

-- A binding that could be read at a time can still be read then, or the command that reads fails.
pub Since-get :
    {R : Redis} (law : IsLawful R) (t : ℕ) (k v : GoString) {s u : R.State}
    → Since R k s u
    → (R.get t k s ≡ ok (some v)) ⊎ ((e : GoString) × (R.get t k s ≡ err e))
    → (R.get t k u ≡ ok (some v)) ⊎ ((e : GoString) × (R.get t k u ≡ err e))
Since-get law t k v untouched h = h
Since-get law t k v (written now ttl other w {t = t'} ne since) h =
    let before = Since-get law t k v since h in
    elim (law.get-set_other now t ttl other k w t' ne) [
      | inr failed ↦ inr failed
      | inl same ↦ elim before [
        | inl there ↦ inl (same ∙ there)
        | inr (e, failed) ↦ inr (e, same ∙ failed)
      ]
    ]

-- json.Marshal and json.Unmarshal at a type.
pub record Json (A : Type 0) : Type 0 where
  pub encode : A → GoString
  pub decode : GoString → Option A
