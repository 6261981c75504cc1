-- ===== src/Wire/BigEndian.antt =====
-- The big-endian integers of the `bytes` crate (`put_u16`, `get_u64` and so on), which is not part of
-- the repository: an interface with the laws that its documentation states.
use lightway.Base.{ℕ, ◌^◌, ◌<◌, ◌≡◌, List, length, All}

-- `be k v` is `v` in `k` bytes, most significant first; `of_be` reads such bytes.
pub record BigEndian : Type 0 where
  pub be : ℕ → ℕ → List ℕ
  pub of_be : List ℕ → ℕ
  pub length-be : (k v : ℕ) → length (be k v) ≡ k
  pub be-IsByte : (k v : ℕ) → All (λ b. b < 256) (be k v)
  pub of_be-be : (k v : ℕ) → v < 256 ^ k → of_be (be k v) ≡ v
  pub of_be-lt : (bs : List ℕ) → All (λ b. b < 256) bs → of_be bs < 256 ^ length bs
