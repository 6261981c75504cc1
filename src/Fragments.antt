-- ===== src/Fragments.antt =====
-- lightway-core/src/connection/fragment_map.rs: packets put together from fragments that come in any
-- order. A method on `&mut self` returns the new value; where it returns an error, its caller drops the
-- packet. The cache is that of the `lru` crate, which is not part of the repository.
pub mod Reassembly
pub mod Map
pub mod Insertion
pub mod AnyOrder
pub mod Cache
mod Runs
use lightway.Base.{
  ℕ, ◌+◌, ◌≡◌, ◌≢◌, ◌⊎◌, Bool, true, false, not, ◌&&◌, ◌||◌, List, [], ◌∷◌, ◌++◌, length, Option,
  none, some, ltb, ◌==◌, if◌then◌else◌,
}
use lightway.Wire.DataFrag.{DataFrag, start_offset, end_offset}

pub data FragmentMapError : Type 0 where
  empty overlapping last_fragment_before_current_tail after_last : FragmentMapError

-- `Result`, and a failed assertion.
pub data Outcome (A : Type 0) : Type 0 where
  ok : A → Outcome A
  err : FragmentMapError → Outcome A
  panic : Outcome A

infixl 5 ◌>>=◌
pub ◌>>=◌ : {A B : Type 0} → Outcome A → (A → Outcome B) → Outcome B
ok a >>= f = f a
err e >>= f = err e
panic >>= f = panic

-- Contiguous bytes in chunks.
pub record Fragment : Type 0 where
  pub start : ℕ
  pub size : ℕ
  pub is_last : Bool
  pub chunks : List (List ℕ)

pub new : DataFrag → Fragment
new frag = record {
  start = frag.offset;
  size = length frag.payload;
  is_last = not frag.more_fragments;
  chunks = frag.payload ∷ [];
}

-- `Fragment::end`.
abbrev pub end_of : Fragment → ℕ
end_of f = f.start + f.size

pub is_complete_packet : Fragment → Bool
is_complete_packet f = f.start == 0 && f.is_last

pub merge : Fragment → Fragment → Outcome Fragment
merge f next =
    if not (end_of f == next.start)
    then panic
    else if f.is_last
    then err after_last
    else ok (record f {
      size = f.size + next.size;
      is_last = next.is_last;
      chunks = f.chunks ++ next.chunks;
    })

pub add_wire_frag : Fragment → DataFrag → Outcome Fragment
add_wire_frag f frag =
    if f.start == end_offset frag
    then if not frag.more_fragments
      then err last_fragment_before_current_tail
      else ok (record f {
        start = start_offset frag;
        size = f.size + length frag.payload;
        chunks = frag.payload ∷ f.chunks;
      })
    else if end_of f == start_offset frag
    then if f.is_last
      then err after_last
      else ok (record f {
        size = f.size + length frag.payload;
        chunks = f.chunks ++ (frag.payload ∷ []);
        is_last = not frag.more_fragments;
      })
    else panic

-- The fragment at `idx` has grown: where it now meets the next, they become one.
pub merge_next : Fragment → List Fragment → Outcome (List Fragment)
merge_next f [] = ok (f ∷ [])
merge_next f (next ∷ rest) =
    if end_of f == next.start then (merge f next >>= λ m. ok (m ∷ rest)) else ok (f ∷ (next ∷ rest))

-- The loop over `idx`, from `curr` on.
pub insert_frag : DataFrag → List Fragment → Outcome (List Fragment)
insert_frag frag [] = ok (new frag ∷ [])
insert_frag frag (curr ∷ rest) =
    let later = insert_frag frag rest in
    if ltb curr.start (end_offset frag) && ltb (start_offset frag) (end_of curr)
    then err overlapping
    else if ltb (end_offset frag) curr.start
    then ok (new frag ∷ (curr ∷ rest))
    else if end_offset frag == curr.start || end_of curr == start_offset frag
    then (add_wire_frag curr frag >>= λ grown. merge_next grown rest)
    else (later >>= λ fs. ok (curr ∷ fs))

unfoldable pub is_empty : List ℕ → Bool
is_empty [] = true
is_empty (x ∷ xs) = false

-- `FragmentedPacket::update`.
pub update : DataFrag → List Fragment → Outcome (List Fragment)
unfolding is_empty
update frag fs = if is_empty frag.payload then err empty else insert_frag frag fs

pub concat : List (List ℕ) → List ℕ
concat [] = []
concat (c ∷ cs) = c ++ concat cs

-- The packet, where it is complete: it is then taken out.
pub try_complete : List Fragment → Option (List ℕ)
try_complete [] = none
try_complete (f ∷ []) = if is_complete_packet f then some (concat f.chunks) else none
try_complete (f ∷ (g ∷ fs)) = none

pub data FragmentMapResult : Type 0 where
  complete : List ℕ → FragmentMapResult
  incomplete : FragmentMapResult
  failed : FragmentMapError → FragmentMapResult
  panicked : FragmentMapResult

-- `LruCache<u16, FragmentedPacket>`: `store` is `get_or_insert_mut` with the value that is left there.
pub record LruCache : Type 1 where
  pub Cache : Type 0
  pub get : Cache → ℕ → Option (List Fragment)
  pub store : Cache → ℕ → List Fragment → Cache
  pub pop : Cache → ℕ → Cache
  pub get-store_self : (c : Cache) (id : ℕ) (fs : List Fragment) → get (store c id fs) id ≡ some fs
  pub get-store_other :
      (c : Cache) (id j : ℕ) (fs : List Fragment)
      → id ≢ j
      → (get (store c id fs) j ≡ get c j) ⊎ (get (store c id fs) j ≡ none)
  pub get-pop_self : (c : Cache) (id : ℕ) → get (pop c id) id ≡ none
  pub get-pop_other : (c : Cache) (id j : ℕ) → id ≢ j → get (pop c id) j ≡ get c j

pub or_new : Option (List Fragment) → List Fragment
or_new none = []
or_new (some fs) = fs

module _ ⦃lru : LruCache⦄ where
  pub hand_out : Option (List ℕ) → lru.Cache → ℕ → FragmentMapResult × lru.Cache
  hand_out (some packet) c id = (complete packet, lru.pop c id)
  hand_out none c id = (incomplete, c)

  pub finish : lru.Cache → ℕ → Outcome (List Fragment) → FragmentMapResult × lru.Cache
  finish c id (err e) = (failed e, lru.pop c id)
  finish c id panic = (panicked, c)
  finish c id (ok fs) = hand_out (try_complete fs) (lru.store c id fs) id

  pub add_fragment : lru.Cache → DataFrag → FragmentMapResult × lru.Cache
  add_fragment c frag =
      let fs = or_new (lru.get c frag.id) in
      finish (lru.store c frag.id fs) frag.id (update frag fs)
