-- ===== src/Fragments/Cache.antt =====
-- A cache for the tests that evicts nothing: it has the laws of the interface.
use lightway.Base.{
  ℕ, ◌≡◌, ◌≢◌, refl, inl, true, false, List, Option, none, some, ◌==◌, if◌then◌else◌, arith,
}
use lightway.Fragments.{Fragment, LruCache}

abbrev pub Slots : Type 0
Slots = ℕ → Option (List Fragment)

unfoldable pub put : Slots → ℕ → Option (List Fragment) → Slots
put c id o j = if id == j then o else c j

pub put_self : (c : Slots) (id : ℕ) (o : Option (List Fragment)) → put c id o id ≡ o
unfolding put
put_self c id o = let same : (id == id) ≡ true = ground arith in rw same refl

pub put_other : (c : Slots) (id j : ℕ) (o : Option (List Fragment)) → id ≢ j → put c id o j ≡ c j
unfolding put
put_other c id j o h = let different : (id == j) ≡ false = ground arith in rw different refl

abbrev pub slots : LruCache
slots = record {
  Cache = Slots;
  get = λ c id. c id;
  store = λ c id fs. put c id (some fs);
  pop = λ c id. put c id none;
  get-store_self = λ c id fs. put_self c id (some fs);
  get-store_other = λ c id j fs h. inl (put_other c id j (some fs) h);
  get-pop_self = λ c id. put_self c id none;
  get-pop_other = λ c id j h. put_other c id j none h;
}
