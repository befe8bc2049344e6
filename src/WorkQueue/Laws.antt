-- ===== src/WorkQueue/Laws.antt =====
-- The work queue is a queue without duplicates.
use mathlib.Core.List.{reverse-reverse, reverse-append, append_assoc, append-nil}
use mathlib.Core.Path.{subst}
use native.Mathlib.Decide.{ℕ_discrete}
use llir_opt.Prelude.{
  ℕ, suc, ◌+◌, ◌%◌, ◌^◌, ◌<◌, ◌≡◌, refl, sym, ap, ◌∙◌, ◌↔◌, ◌⊎◌, inl, inr, Bool, true, false, ◌||◌,
  List, [], ◌∷◌, ◌++◌, reverse, Option, none, some, arith, length, length-append, get_elem?, set,
  leb, leb→le, ◌==◌, if◌then◌else◌, ==_iff, ==_ne, Bool-cases,
}
use llir_opt.WorkQueue.{
  WorkQueue, grow, push_back, push, pop, pop_from, pop_take, take_back, is_empty, size,
}
use llir_opt.WorkQueue.Vectors.{
  contains, IsDistinct, flag, contains-append, IsDistinct-end, take_back-end, refill-reverse,
  flag-resize, length-resize, flag-get, flag-set, flag_lt, back_cases, length-reverse,
  nil_of_length,
}

-- The items in the order in which they will be popped.
abbrev pub pending : WorkQueue → List ℕ
pending q = reverse q.take ++ q.place

-- The flags say what is pending, and nothing is pending twice.
pub record IsValid (q : WorkQueue) : Type 0 where
  pub flagged : (a : ℕ) → flag q.dedup a ≡ contains (pending q) a
  pub distinct : IsDistinct (pending q)

flag-grow : (bs : List Bool) (a i : ℕ) → suc a < 2 ^ 32 → flag (grow bs a) i ≡ flag bs i
unfolding grow
flag-grow bs a i fits = elim (Bool-cases (leb (length bs) a)) [
  | inl out ↦ rw out (flag-resize ((a + 1) % 2 ^ 32) i bs (omega (arith, leb→le (length bs) a out)))
  | inr within ↦ rw within refl
]

lt-length-grow : (bs : List Bool) (a : ℕ) → suc a < 2 ^ 32 → a < length (grow bs a)
unfolding grow
lt-length-grow bs a fits = elim (Bool-cases (leb (length bs) a)) [
  | inl out ↦ rw out (omega (arith, length-resize ((a + 1) % 2 ^ 32) bs))
  | inr within ↦ rw within (ground arith)
]

pending_end : (q : WorkQueue) (a : ℕ) → reverse q.take ++ push_back q.place a ≡ pending q ++ a ∷ []
pending_end q a = sym (append_assoc (reverse q.take) q.place (a ∷ []))

contains_end :
    (xs : List ℕ) (a b : ℕ) → contains (xs ++ a ∷ []) b ≡ (if b == a then true else contains xs b)
contains_end xs a b = ground (arith, contains-append xs (a ∷ []) b)

-- `Push` of an item below 2^32 - 1 returns a valid queue: the same items where the item is already
-- pending, and the item behind all others where it is not.
pub push-pending :
    (q : WorkQueue) (a : ℕ)
    → IsValid q
    → suc a < 2 ^ 32
    → (q' : WorkQueue) × (push q a ≡ some q')
      × IsValid q'
      × (pending q' ≡ (if contains (pending q) a then pending q else pending q ++ a ∷ []))
unfolding push
push-pending q a v fits =
    let at : get_elem? (grow q.dedup a) a ≡ some (contains (pending q) a) =
      flag-get (grow q.dedup a) a (lt-length-grow q.dedup a fits)
      ∙ ap some (flag-grow q.dedup a a fits ∙ v.flagged a) in
    elim (Bool-cases (contains (pending q) a)) [
      | inl old ↦ (
        record q { dedup = grow q.dedup a },
        rw (at, push) (rw old refl),
        record { flagged = λ b. flag-grow q.dedup a b fits ∙ v.flagged b; distinct = v.distinct },
        rw old refl,
      )
      | inr new ↦ (
        record q { place = push_back q.place a; dedup = set (grow q.dedup a) a true },
        rw (at, push) (rw new refl),
        record {
          flagged = λ b.
              flag-set (grow q.dedup a) a b true (lt-length-grow q.dedup a fits)
              ∙ (rw (flag-grow q.dedup a b fits, v.flagged b)
                  (sym (ap (λ t. contains t b) (pending_end q a) ∙ contains_end (pending q) a b)));
          distinct = rw (pending_end q a) (IsDistinct-end (pending q) a v.distinct new);
        },
        pending_end q a ∙ rw new refl,
      )
    ]

-- What `Pop` promises where `items` are pending.
abbrev Pops : List ℕ → Option (WorkQueue × ℕ) → Type 0
Pops items result =
    ((items ≡ []) × (result ≡ none))
    ⊎ ((a : ℕ) × (q' : WorkQueue) × (result ≡ some (q', a)) × IsValid q' × (items ≡ a ∷ pending q'))

first_pending :
    (q : WorkQueue) (front : List ℕ) (a : ℕ)
    → q.take ≡ front ++ a ∷ []
    → pending q ≡ a ∷ reverse front ++ q.place
first_pending q front a h =
    ap (λ t. reverse t ++ q.place) h ∙ ap (λ t. t ++ q.place) (reverse-append front (a ∷ []))

cleared :
    (flags : List Bool) (rest : List ℕ) (a b : ℕ)
    → flag flags b ≡ (b == a || contains rest b)
    → contains rest a ≡ false
    → (if b == a then false else flag flags b) ≡ contains rest b
cleared flags rest a b h gone = elim (ℕ_discrete b a) [
  | yes e ↦ rw ((==_iff b a).1 e) (sym gone ∙ ap (contains rest) (sym e))
  | no d ↦ rw (==_ne b a d) (rw (==_ne b a d) at h)
]

pop_take-Pops :
    (q : WorkQueue) (front : List ℕ) (a : ℕ)
    → IsValid q
    → q.take ≡ front ++ a ∷ []
    → Pops (pending q) (pop_take q)
unfolding pop_take
pop_take-Pops q front a v h =
    let q' : WorkQueue = record q { take = front; dedup = set q.dedup a false } in
    let split = first_pending q front a h in
    let apart : IsDistinct (a ∷ pending q') = subst IsDistinct split v.distinct in
    let there : flag q.dedup a ≡ true = v.flagged a ∙ ap (λ t. contains t a) split ∙ ground arith in
    inr (
      a,
      q',
      rw (ap take_back h ∙ take_back-end front a, pop_take) refl,
      record {
        flagged = λ b.
            flag-set q.dedup a b false (flag_lt q.dedup a there)
            ∙ cleared q.dedup (pending q') a b (v.flagged b ∙ ap (λ t. contains t b) split) apart.0;
        distinct = apart.1;
      },
      split,
    )

pop_from-Pops :
    (front : List ℕ) (a : ℕ) (q : WorkQueue)
    → IsValid q
    → q.take ≡ front ++ a ∷ []
    → Pops (pending q) (pop_from (front ++ a ∷ []) q)
unfolding pop_from
pop_from-Pops [] a q v h = pop_take-Pops q [] a v h
pop_from-Pops (x ∷ front) a q v h = pop_take-Pops q (x ∷ front) a v h

pop_refilled-Pops : (q : WorkQueue) → IsValid q → q.take ≡ [] → Pops (pending q) (pop_from [] q)
unfolding pop_from pop_take take_back
pop_refilled-Pops q v no_take =
    let q1 : WorkQueue = record q { place = []; take = reverse q.place } in
    let items : pending q ≡ q.place = ap (λ t. reverse t ++ q.place) no_take in
    let same : pending q1 ≡ pending q = append-nil _ ∙ reverse-reverse q.place ∙ sym items in
    let v1 : IsValid q1 = record {
      flagged = λ a. v.flagged a ∙ ap (λ t. contains t a) (sym same);
      distinct = subst IsDistinct (sym same) v.distinct;
    } in
    rw (refill-reverse q.place, pop_from)
      (elim (back_cases (reverse q.place)) [
        | inl nothing ↦
            inl (
              sym same ∙ ap (λ t. reverse t ++ []) nothing,
              rw (ap take_back nothing, pop_take) refl,
            )
        | inr (front, a, e) ↦ subst (λ t. Pops t (pop_take q1)) same (pop_take-Pops q1 front a v1 e)
      ])

-- `Pop` of a valid queue with nothing pending is undefined. Any other valid queue gives the item
-- that has been pending longest, and is then the valid queue of the other items, in their order.
pub pop-pending :
    (q : WorkQueue)
    → IsValid q
    → ((pending q ≡ []) × (pop q ≡ none))
      ⊎ ((a : ℕ) × (q' : WorkQueue) × (pop q ≡ some (q', a))
          × IsValid q'
          × (pending q ≡ a ∷ pending q'))
unfolding pop
pop-pending q v = elim (back_cases q.take) [
  | inr (front, a, h) ↦
      subst (Pops (pending q)) (ap (λ t. pop_from t q) (sym h)) (pop_from-Pops front a q v h)
  | inl no_take ↦
      subst (Pops (pending q)) (ap (λ t. pop_from t q) (sym no_take))
        (pop_refilled-Pops q v no_take)
]

-- `Size` is the number of pending items, and `Empty` holds exactly where there are none.
pub size-pending :
    (q : WorkQueue) → (size q ≡ length (pending q)) × ((is_empty q ≡ true) ↔ (pending q ≡ []))
unfolding size is_empty
size-pending q =
    let total : size q ≡ length (pending q) =
      omega (arith, length-append (reverse q.take) q.place, length-reverse q.take) in
    (
      total,
      (
        λ h. nil_of_length (pending q) (ground (arith, total)),
        λ h. let none_left : size q ≡ 0 = total ∙ ap length h in ground arith,
      ),
    )
