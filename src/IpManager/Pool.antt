-- ===== src/IpManager/Pool.antt =====
-- Where each address of a pool is, counted.
use lightway.Base.{
  ℕ, ◌+◌, ◌≤◌, ◌≡◌, refl, ap, ◌∙◌, inl, inr, Bool, true, false, not, List, [], ◌∷◌, ◌++◌, some,
  ◌==◌, if◌then◌else◌, arith, Bool-cases,
}
use lightway.IpManager.{
  contains, filter, remove, IpPool, new, insert, allocate_from, allocate_ip, free_ip,
}

-- How often an address occurs.
unfoldable pub count : ℕ → List ℕ → ℕ
count ip [] = 0
count ip (x ∷ xs) = (if x == ip then 1 else 0) + count ip xs

count-append : (ip : ℕ) (xs ys : List ℕ) → count ip (xs ++ ys) ≡ count ip xs + count ip ys
unfolding count
count-append ip [] ys = omega arith
count-append ip (x ∷ xs) ys = omega (arith, count-append ip xs ys)

pub count-filter :
    (ip : ℕ) (p : ℕ → Bool) (xs : List ℕ)
    → count ip (filter p xs) ≡ (if p ip then count ip xs else 0)
unfolding count filter
count-filter ip p [] = ground arith
count-filter ip p (x ∷ xs) = elim (Bool-cases (x == ip)) [
  | inl same ↦
      let q : p x ≡ p ip = ap p (ground arith) in
      elim (Bool-cases (p ip)) [
        | inl k ↦
            let ih : count ip (filter p xs) ≡ count ip xs = rw k at (count-filter ip p xs) in
            rw (q, k, same) (omega (arith, ih))
        | inr k ↦ rw (q, k) (rw k at (count-filter ip p xs))
      ]
  | inr other ↦ elim (Bool-cases (p x)) [
    | inl k ↦ rw (k, other) (ground (arith, count-filter ip p xs))
    | inr k ↦ rw (k, other) (ground (arith, count-filter ip p xs))
  ]
]

pub contains-count : (ip : ℕ) (xs : List ℕ) → contains ip xs ≡ not (count ip xs == 0)
unfolding contains count
contains-count ip [] = refl
contains-count ip (x ∷ xs) = elim (Bool-cases (x == ip)) [
  | inl same ↦ rw same (ground arith)
  | inr other ↦ rw other (contains-count ip xs ∙ ground arith)
]

-- Where an address is held: by a client or in the queue.
unfoldable pub held : ℕ → IpPool → ℕ
held ip pool = count ip pool.allocated_ips + count ip pool.available_ips

-- No address is held twice.
abbrev pub IsWellFormed : IpPool → Type 0
IsWellFormed pool = (ip : ℕ) → held ip pool ≤ 1

count-insert :
    (ip x : ℕ) (xs : List ℕ)
    → count x xs ≡ 0
    → count ip (insert x xs) ≡ count ip (x ∷ []) + count ip xs
unfolding count insert
count-insert ip x xs h =
    let absent : contains x xs ≡ false = contains-count x xs ∙ rw h refl in rw absent (omega arith)

pub held-allocate :
    (ip : ℕ) (queue : List ℕ) (pool : IpPool)
    → IsWellFormed pool
    → pool.available_ips ≡ queue
    → held ip (allocate_from queue pool).1 ≡ held ip pool
unfolding allocate_from held count
held-allocate ip [] pool w e = refl
held-allocate ip (x ∷ rest) pool w e =
    let self : (x == x) ≡ true = ground arith in
    let here : count x pool.available_ips ≡ 1 + count x rest = ap (count x) e ∙ rw self refl in
    let free : count x pool.allocated_ips ≡ 0 = let one = w x in omega (arith, here, one) in
    omega (arith, count-insert ip x pool.allocated_ips free, ap (count ip) e)

append_one :
    (ip x : ℕ) (xs : List ℕ) → (x == ip) ≡ true → count ip (xs ++ (x ∷ [])) ≡ count ip xs + 1
unfolding count
append_one ip x xs e = count-append ip xs (x ∷ []) ∙ rw e refl

append_none : (ip x : ℕ) (xs : List ℕ) → (x == ip) ≡ false → count ip (xs ++ (x ∷ [])) ≡ count ip xs
unfolding count
append_none ip x xs e = ground (arith, count-append ip xs (x ∷ []))

pub held-free :
    (ip x : ℕ) (pool : IpPool) → IsWellFormed pool → held ip (free_ip x pool) ≡ held ip pool
unfolding free_ip held count remove
held-free ip x pool w = elim (Bool-cases (contains x pool.allocated_ips)) [
  | inr absent ↦ rw absent refl
  | inl present ↦
      let kept = count-filter ip (λ y. not (y == x)) pool.allocated_ips in
      rw present (elim (Bool-cases (ip == x)) [
        | inl same ↦
            let is : ip ≡ x = ground arith in
            let gone : count ip (remove x pool.allocated_ips) ≡ 0 = rw same at kept in
            let has : contains ip pool.allocated_ips ≡ true =
              ap (λ t. contains t pool.allocated_ips) is ∙ present in
            let held_here = contains-count ip pool.allocated_ips in
            let at_most = w ip in
            let once : count ip pool.allocated_ips ≡ 1 = ground (arith, at_most) in
            let back : (x == ip) ≡ true = ground arith in
            omega (arith, append_one ip x pool.available_ips back)
        | inr other ↦
            let stays : count ip (remove x pool.allocated_ips) ≡ count ip pool.allocated_ips =
              rw other at kept in
            let no_more : (x == ip) ≡ false = ground arith in
            omega (arith, append_none ip x pool.available_ips no_more)
      ])
]

-- What callers do with a pool, and the pool after that.
pub data Operation : Type 0 where
  allocate : Operation
  free : ℕ → Operation

unfoldable pub apply : Operation → IpPool → IpPool
apply allocate pool = (allocate_ip pool).1
apply (free ip) pool = free_ip ip pool

unfoldable pub after : List Operation → IpPool → IpPool
after [] pool = pool
after (o ∷ os) pool = after os (apply o pool)

held-apply :
    (ip : ℕ) (o : Operation) (pool : IpPool)
    → IsWellFormed pool
    → held ip (apply o pool) ≡ held ip pool
unfolding apply allocate_ip
held-apply ip allocate pool w = held-allocate ip pool.available_ips pool w refl
held-apply ip (free x) pool w = held-free ip x pool w

held-after :
    (ip : ℕ) (os : List Operation) (pool : IpPool)
    → IsWellFormed pool
    → held ip (after os pool) ≡ held ip pool
unfolding after
held-after ip [] pool w = refl
held-after ip (o ∷ os) pool w =
    let w' : IsWellFormed (apply o pool) = λ x. rw (held-apply x o pool w) (w x) in
    held-after ip os (apply o pool) w' ∙ held-apply ip o pool w

-- What the pool of a network has to hand out of an address.
pub capacity : List ℕ → ℕ → ℕ → List ℕ → ℕ → ℕ
capacity hosts network broadcast reserved ip =
    if contains ip (reserved ++ (network ∷ (broadcast ∷ []))) then 0 else count ip hosts

pub held-new :
    (hosts : List ℕ) (network broadcast : ℕ) (reserved : List ℕ) (ip : ℕ)
    → held ip (new hosts network broadcast reserved) ≡ capacity hosts network broadcast reserved ip
unfolding held new count capacity
held-new hosts network broadcast reserved ip =
    let taken = contains ip (reserved ++ (network ∷ (broadcast ∷ []))) in
    let kept =
      count-filter ip (λ x. not (contains x (reserved ++ (network ∷ (broadcast ∷ []))))) hosts in
    elim (Bool-cases taken) [
      | inl kept_back ↦ rw kept_back (omega (arith, rw kept_back at kept))
      | inr usable ↦ rw usable (omega (arith, rw usable at kept))
    ]

pub capacity-le :
    (hosts : List ℕ) (network broadcast : ℕ) (reserved : List ℕ) (ip : ℕ)
    → capacity hosts network broadcast reserved ip ≤ count ip hosts
unfolding capacity
capacity-le hosts network broadcast reserved ip = ground arith

-- Where addresses are only allocated from a pool and freed to it, it keeps what it had. It takes hosts
-- without repetition.
held-after_new :
    (hosts : List ℕ) (network broadcast : ℕ) (reserved : List ℕ) (os : List Operation) (ip : ℕ)
    → ((x : ℕ) → count x hosts ≤ 1)
    → held ip (after os (new hosts network broadcast reserved))
      ≡ capacity hosts network broadcast reserved ip
held-after_new hosts network broadcast reserved os ip h =
    held-after ip os (new hosts network broadcast reserved) (λ x. omega (
      arith,
      h x,
      held-new hosts network broadcast reserved x,
      capacity-le hosts network broadcast reserved x,
    ))
    ∙ held-new hosts network broadcast reserved ip

granted :
    (queue : List ℕ) (pool : IpPool) (ip : ℕ)
    → IsWellFormed pool
    → pool.available_ips ≡ queue
    → (allocate_from queue pool).0 ≡ some ip
    → (count ip pool.allocated_ips ≡ 0) × (count ip (allocate_from queue pool).1.allocated_ips ≡ 1)
unfolding allocate_from held count
granted [] pool ip w e h = cc
granted (x ∷ rest) pool ip w e h =
    let is : x ≡ ip = ground arith in
    let self : (x == ip) ≡ true = ground arith in
    let here : count ip pool.available_ips ≡ 1 + count ip rest = ap (count ip) e ∙ rw self refl in
    let at_most = w ip in
    let vacant : count ip pool.allocated_ips ≡ 0 = omega (arith, here, at_most) in
    let vacant_x : count x pool.allocated_ips ≡ 0 =
      ap (λ t. count t pool.allocated_ips) is ∙ vacant in
    (vacant, count-insert ip x pool.allocated_ips vacant_x ∙ rw self (omega (arith, vacant)))

-- However addresses have been allocated from the pool of a network without repeated hosts and freed to it,
-- an address that it grants was not with any client, and then is, once.
pub allocate_ip-granted :
    (hosts : List ℕ) (network broadcast : ℕ) (reserved : List ℕ) (os : List Operation) (ip : ℕ)
    → ((x : ℕ) → count x hosts ≤ 1)
    → (allocate_ip (after os (new hosts network broadcast reserved))).0 ≡ some ip
    → (count ip (after os (new hosts network broadcast reserved)).allocated_ips ≡ 0)
      × (count ip (allocate_ip (after os (new hosts network broadcast reserved))).1.allocated_ips
          ≡ 1)
unfolding allocate_ip
allocate_ip-granted hosts network broadcast reserved os ip h e =
    let pool = after os (new hosts network broadcast reserved) in
    granted pool.available_ips pool ip
      (λ x. omega (
        arith,
        held-after_new hosts network broadcast reserved os x h,
        capacity-le hosts network broadcast reserved x,
        h x,
      ))
      refl e
