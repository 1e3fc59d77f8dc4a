-- ===== src/JobReqs/Rows.antt =====
-- The rows of JobRequirementsInput.tsx and their keys.
use mathlib.Core.Path.{subst}
use rs_recruitment.Base.{
  if_case, get_elem?, Option, none, some, sym, inl, inr, ◌⊎◌, ℕ, zero, suc, ◌+◌, ◌-◌, ◌≤◌, ◌<◌, ltb,
  ◌==◌, length, length-append, take, Bool-cases, ◌&&◌, Text, ◌≡◌, ◌≢◌, refl, List, [], ◌∷◌, ◌++◌,
  All, All-append, arith,
}
use rs_recruitment.Feed.{delete_at, is_set}
use rs_recruitment.Sortable.{ArrayMove, Moves, insert_at}
use rs_recruitment.JobReqs.Move.{IsRow, index_of-IsRow}
use rs_recruitment.JobReqs.{
  Reqs, can_remove, fresh, mounted, sync_ids, update, remove_row, commit_row, add, commit_new,
  Event, committed, removed, press_remove, opened, added, cancelled, typed, seeded, dragged, moved,
  handle_drag_end, handle, run,
}

-- A key that is not among others, and keys of which none comes twice.
abbrev pub IsNew : ℕ → List ℕ → Type 0
IsNew k ids = All (λ j. k ≢ j) ids

abbrev pub AllOnce : List ℕ → Type 0
AllOnce [] = Unit
AllOnce (k ∷ ids) = IsNew k ids × AllOnce ids

-- Each row has a key, no key comes twice, and the next one is above all.
pub record IsKeyed (s : Reqs) : Type 0 where
  pub as_many : length s.ids ≡ length s.value
  pub once : AllOnce s.ids
  pub below : All (λ k. k < s.next_id) s.ids

length-fresh : (n k : ℕ) → length (fresh n k) ≡ k
length-fresh n zero = refl
length-fresh n (suc k) = omega (arith, length-fresh (suc n) k)

length-take : (n : ℕ) (ids : List ℕ) → n ≤ length ids → length (take n ids) ≡ n
length-take zero ids le = refl
length-take (suc n) [] le = absurd (omega arith)
length-take (suc n) (k ∷ ids) le = omega (arith, length-take n ids (omega arith))

module _ (P : ℕ → Type 0) where
  All-take : (n : ℕ) (ids : List ℕ) → All P ids → All P (take n ids)
  All-take zero ids h = tt
  All-take (suc n) [] h = tt
  All-take (suc n) (k ∷ ids) h = (h.0, All-take n ids h.1)

  All-without : (i : ℕ) (ids : List ℕ) → All P ids → All P (delete_at i ids)
  All-without i [] h = tt
  All-without zero (k ∷ ids) h = h.1
  All-without (suc i) (k ∷ ids) h = (h.0, All-without i ids h.1)

take-AllOnce : (n : ℕ) (ids : List ℕ) → AllOnce ids → AllOnce (take n ids)
take-AllOnce zero ids h = tt
take-AllOnce (suc n) [] h = tt
take-AllOnce (suc n) (k ∷ ids) h = (All-take (λ j. k ≢ j) n ids h.0, take-AllOnce n ids h.1)

delete_at-AllOnce : (i : ℕ) (ids : List ℕ) → AllOnce ids → AllOnce (delete_at i ids)
delete_at-AllOnce i [] h = tt
delete_at-AllOnce zero (k ∷ ids) h = h.1
delete_at-AllOnce (suc i) (k ∷ ids) h =
    (All-without (λ j. k ≢ j) i ids h.0, delete_at-AllOnce i ids h.1)

-- New keys stay below the next one, and those before them stay below it too.
fresh-below : (n k m : ℕ) → n + k ≤ m → All (λ j. j < m) (fresh n k)
fresh-below n zero m le = tt
fresh-below n (suc k) m le = (omega arith, fresh-below (suc n) k m (omega arith))

below-weaken : (n m : ℕ) (ids : List ℕ) → n ≤ m → All (λ j. j < n) ids → All (λ j. j < m) ids
below-weaken n m [] le h = tt
below-weaken n m (k ∷ ids) le h = (omega (arith, h.0), below-weaken n m ids le h.1)

fresh-IsNew : (j n k : ℕ) → j < n → IsNew j (fresh n k)
fresh-IsNew j n zero lt = tt
fresh-IsNew j n (suc k) lt = ((λ e. absurd (omega arith)), fresh-IsNew j (suc n) k (omega arith))

fresh-AllOnce : (n k : ℕ) → AllOnce (fresh n k)
fresh-AllOnce n zero = tt
fresh-AllOnce n (suc k) = (fresh-IsNew n (suc n) k (omega arith), fresh-AllOnce (suc n) k)

append-fresh-AllOnce :
    (ids : List ℕ) (n k : ℕ) → AllOnce ids → All (λ j. j < n) ids → AllOnce (ids ++ fresh n k)
append-fresh-AllOnce [] n k h b = fresh-AllOnce n k
append-fresh-AllOnce (j ∷ ids) n k h b = (
  All-append (λ i. j ≢ i) ids (fresh n k) h.0 (fresh-IsNew j n k b.0),
  append-fresh-AllOnce ids n k h.1 b.1,
)

abbrev IsKeys : Reqs → Type 0
IsKeys s = AllOnce s.ids × All (λ k. k < s.next_id) s.ids

sync_ids-IsKeyed : (s : Reqs) → IsKeys s → IsKeyed (sync_ids s)
unfolding sync_ids
sync_ids-IsKeyed s v = elim (Bool-cases (length s.ids == length s.value)) [
  | inl e ↦ rw e (record { as_many = ground arith; once = v.0; below = v.1 })
  | inr e ↦ elim (Bool-cases (ltb (length s.value) (length s.ids))) [
    | inl more ↦
        let le : length s.value ≤ length s.ids = ground arith in
        rw (e, more)
          (record {
            as_many = length-take (length s.value) s.ids le;
            once = take-AllOnce (length s.value) s.ids v.0;
            below = All-take (λ k. k < s.next_id) (length s.value) s.ids v.1;
          })
    | inr fewer ↦
        let n = s.next_id in
        let k = length s.value - length s.ids in
        let le : length s.ids ≤ length s.value = ground arith in
        rw (e, fewer)
          (record {
            as_many = omega (arith, length-append s.ids (fresh n k), length-fresh n k);
            once = append-fresh-AllOnce s.ids n k v.0 v.1;
            below =
                All-append (λ j. j < n + k) s.ids (fresh n k)
                  (below-weaken n (n + k) s.ids (omega arith) v.1)
                  (fresh-below n k (n + k) (omega arith));
          })
  ]
]

same-IsKeys : (s s' : Reqs) → s'.ids ≡ s.ids → s'.next_id ≡ s.next_id → IsKeys s → IsKeys s'
same-IsKeys s s' ids next v = rw (ids, next) v

commit_row-ids :
    (i : ℕ) (draft : Text) (s : Reqs)
    → (((commit_row i draft s).ids ≡ s.ids) ⊎ ((commit_row i draft s).ids ≡ delete_at i s.ids))
      × ((commit_row i draft s).next_id ≡ s.next_id)
unfolding commit_row update remove_row
commit_row-ids i draft s = ground arith

commit_row-IsKeys : (i : ℕ) (draft : Text) (s : Reqs) → IsKeys s → IsKeys (commit_row i draft s)
commit_row-IsKeys i draft s v =
    let (cases, next) = commit_row-ids i draft s in
    elim cases [
      | inl e ↦ same-IsKeys s (commit_row i draft s) e next v
      | inr e ↦
          rw (e, next) (delete_at-AllOnce i s.ids v.0, All-without (λ k. k < s.next_id) i s.ids v.1)
    ]

press_remove-IsKeys : (i : ℕ) (s : Reqs) → IsKeys s → IsKeys (press_remove i s)
unfolding press_remove remove_row
press_remove-IsKeys i s v =
    if_case IsKeys (can_remove s && is_set (get_elem? s.value i)) _ s
      (λ e. (delete_at-AllOnce i s.ids v.0, All-without (λ k. k < s.next_id) i s.ids v.1)) (λ e. v)

commit_new-ids :
    (s : Reqs)
    → ((commit_new s).ids ≡ s.ids) × ((commit_new s).next_id ≡ s.next_id)
      ⊎ ((commit_new s).ids ≡ s.ids ++ s.next_id ∷ []) × ((commit_new s).next_id ≡ s.next_id + 1)
unfolding commit_new
commit_new-ids s = ground arith

commit_new-IsKeys : (s : Reqs) → IsKeys s → IsKeys (commit_new s)
commit_new-IsKeys s v = elim (commit_new-ids s) [
  | inl (e, next) ↦ same-IsKeys s (commit_new s) e next v
  | inr (e, next) ↦
      rw (e, next)
        (
          append-fresh-AllOnce s.ids s.next_id 1 v.0 v.1,
          All-append (λ j. j < s.next_id + 1) s.ids (fresh s.next_id 1)
              (below-weaken s.next_id (s.next_id + 1) s.ids (omega arith) v.1)
              (fresh-below s.next_id 1 (s.next_id + 1) (omega arith)),
        )
]

-- A key taken out and put in elsewhere.
module _ (P : ℕ → Type 0) where
  All-get : (i : ℕ) (ids : List ℕ) {k : ℕ} → get_elem? ids i ≡ some k → All P ids → P k
  All-get i [] e h = cc
  All-get zero (j ∷ ids) {k} e h = let same : j ≡ k = cc in subst P same h.0
  All-get (suc i) (j ∷ ids) e h = All-get i ids e h.1

  All-insert : (i k : ℕ) (ids : List ℕ) → P k → All P ids → All P (insert_at i k ids)
  All-insert zero k ids p h = (p, h)
  All-insert (suc i) k [] p h = (p, tt)
  All-insert (suc i) k (j ∷ ids) p h = (h.0, All-insert i k ids p h.1)

insert_at-AllOnce :
    (i k : ℕ) (ids : List ℕ) → IsNew k ids → AllOnce ids → AllOnce (insert_at i k ids)
insert_at-AllOnce zero k ids new h = (new, h)
insert_at-AllOnce (suc i) k [] new h = (tt, tt)
insert_at-AllOnce (suc i) k (j ∷ ids) new h =
    (All-insert (λ m. j ≢ m) i k ids (λ e. new.0 (sym e)) h.0, insert_at-AllOnce i k ids new.1 h.1)

delete_at-IsNew :
    (i : ℕ) (ids : List ℕ) {k : ℕ}
    → get_elem? ids i ≡ some k
    → AllOnce ids
    → IsNew k (delete_at i ids)
delete_at-IsNew i [] e h = cc
delete_at-IsNew zero (j ∷ ids) {k} e h = let same : j ≡ k = cc in subst (λ m. IsNew m ids) same h.0
delete_at-IsNew (suc i) (j ∷ ids) e h =
    ((λ same. All-get (λ m. j ≢ m) i ids e h.0 (sym same)), delete_at-IsNew i ids e h.1)

module _ (array_move : ArrayMove) (moves : Moves array_move) where
  moved-IsKeys :
      (k o : ℕ) (from to : Option ℕ) (s : Reqs)
      → IsRow k s from
      → IsRow o s to
      → IsKeys s
      → IsKeys (moved array_move from to s)
  moved-IsKeys k o none to s h h' v = v
  moved-IsKeys k o (some i) none s h h' v = v
  moved-IsKeys k o (some i) (some j) s h h' v = rw (moves ℕ s.ids i j k h.0 h'.1) (
    insert_at-AllOnce j k (delete_at i s.ids) (delete_at-IsNew i s.ids h.0 v.0)
        (delete_at-AllOnce i s.ids v.0),
    All-insert (λ m. m < s.next_id) j k (delete_at i s.ids)
        (All-get (λ m. m < s.next_id) i s.ids h.0 v.1)
        (All-without (λ m. m < s.next_id) i s.ids v.1),
  )

  handle_drag_end-IsKeys :
      (k : ℕ) (over : Option ℕ) (s : Reqs) → IsKeys s → IsKeys (handle_drag_end array_move k over s)
  unfolding handle_drag_end
  handle_drag_end-IsKeys k none s v = v
  handle_drag_end-IsKeys k (some o) s v =
      if_case IsKeys (k == o) s _ (λ e. v)
        (λ e. moved-IsKeys k o _ _ s (index_of-IsRow k s) (index_of-IsRow o s) v)

  handle-IsKeys : (e : Event) (s : Reqs) → IsKeys s → IsKeys (handle array_move e s)
  unfolding handle add
  handle-IsKeys (committed i draft) s v = commit_row-IsKeys i draft s v
  handle-IsKeys (removed i) s v = press_remove-IsKeys i s v
  handle-IsKeys added s v = commit_new-IsKeys s v
  handle-IsKeys opened s v = same-IsKeys s (add s) (ground arith) (ground arith) v
  handle-IsKeys cancelled s v = v
  handle-IsKeys (typed draft) s v =
      same-IsKeys s (handle array_move (typed draft) s) (ground arith) (ground arith) v
  handle-IsKeys (seeded value) s v = v
  handle-IsKeys (dragged k over) s v = handle_drag_end-IsKeys k over s v

  run-IsKeyed_from : (es : List Event) (s : Reqs) → IsKeyed s → IsKeyed (run array_move es s)
  unfolding run
  run-IsKeyed_from [] s v = v
  run-IsKeyed_from (e ∷ es) s v =
      run-IsKeyed_from es (sync_ids (handle array_move e s))
        (sync_ids-IsKeyed (handle array_move e s) (handle-IsKeys e s (v.once, v.below)))

  -- Whatever is edited, added, removed by its button or by an empty edit, or dragged elsewhere, with an `arrayMove` that takes an
  -- element out and puts it in where it is told, and whatever list the parent gives, each
  -- requirement has one key, no key comes twice, and the next key is above all.
  pub run-IsKeyed :
      (value : List Text) (es : List Event) → IsKeyed (run array_move es (mounted value))
  run-IsKeyed value es = run-IsKeyed_from es (mounted value) (record {
    as_many = length-fresh 0 (length value);
    once = fresh-AllOnce 0 (length value);
    below = fresh-below 0 (length value) (length value) (omega arith);
  })
