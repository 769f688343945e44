-- ===== src/Ilist/Values.antt =====
-- The linked list as the list of its values.
use coronel.Base.{
  ℕ, zero, suc, ◌+◌, ◌^◌, ◌<◌, ◌≡◌, ◌≢◌, refl, true, false, List, [], ◌∷◌, ◌++◌, ◌==◌, arith,
  length, add64, sym, subst, ap, ◌∙◌,
}
use coronel.Machine.{null, update, placement_kalloc}
use coronel.Ilist.{Link, link, Ilist, push_back, values_from, values}

-- From `p` the `next` pointers lead through the values to `last`, the one node without a successor; every
-- node lies below `top`.
abbrev pub IsLinked : (ℕ → Link) → ℕ → ℕ → ℕ → List ℕ → Type 0
IsLinked links top last p [] = (p ≡ null) × (last ≡ null)
IsLinked links top last p (x ∷ []) =
    (p ≡ last) × (0 < p) × (p < top) × ((links p).value ≡ x) × ((links p).next ≡ null)
IsLinked links top last p (x ∷ y ∷ xs) =
    (0 < p)
    × (p < top)
    × (p ≢ last)
    × ((links p).value ≡ x)
    × IsLinked links top last (links p).next (y ∷ xs)

-- The nodes lie below the placement pointer.
pub record IsIlist (l : Ilist) (xs : List ℕ) : Type 0 where
  pub linked : IsLinked l.links l.machine.placement l.tail l.head xs
  pub size : l.size ≡ length xs

values_null : (n : ℕ) (links : ℕ → Link) → values_from n null links ≡ []
unfolding values_from
values_null zero links = refl
values_null (suc n) links = refl

values_from_lem :
    (n : ℕ) (links : ℕ → Link) (top last p : ℕ) (xs : List ℕ)
    → length xs < n
    → IsLinked links top last p xs
    → values_from n p links ≡ xs
unfolding values_from
values_from_lem zero links top last p xs h c = absurd (omega arith)
values_from_lem (suc n) links top last p [] h c = ground (arith, c.0)
values_from_lem (suc n) links top last p (x ∷ []) h c =
    let some : (p == null) ≡ false = ground (arith, c.1) in
    let rest : values_from n (links p).next links ≡ [] =
      ap (λ (q : ℕ). values_from n q links) c.4 ∙ values_null n links in
    rw (some, rest) (ap (λ (v : ℕ). v ∷ []) c.3)
values_from_lem (suc n) links top last p (x ∷ y ∷ xs) h c =
    let rest = values_from_lem n links top last (links p).next (y ∷ xs) (omega arith) c.4 in
    ground (arith, rest)

values_lem : (l : Ilist) (xs : List ℕ) → IsIlist l xs → values l ≡ xs
unfolding values
values_lem l xs h =
    values_from_lem (suc l.size) l.links l.machine.placement l.tail l.head xs
      (omega (arith, h.size)) h.linked

-- The memory after `push_back` on a list that is not empty.
abbrev appended : ℕ → ℕ → ℕ → (ℕ → Link) → ℕ → Link
appended value place last links =
    let links₁ = update links place (link value) in
    update links₁ last (record (links₁ last) { next = place })

append-IsLinked :
    (links : ℕ → Link) (top last p value x : ℕ) (xs : List ℕ)
    → 0 < top
    → IsLinked links top last p (x ∷ xs)
    → IsLinked (appended value top last links) (top + 16) top p (x ∷ xs ++ (value ∷ []))
append-IsLinked links top last p value x [] pos c =
    let below : last < top = omega (arith, c) in
    (
      c.1,
      omega (arith, c),
      omega (arith, c),
      ground (arith, c),
      (
        ground (arith, c),
        ground (arith, c),
        ground (arith, c),
        ground (arith, c),
        ground (arith, c),
      ),
    )
append-IsLinked links top last p value x (y ∷ xs) pos c =
    let kept : appended value top last links p ≡ links p = ground (arith, c.1, c.2) in
    let rest = append-IsLinked links top last (links p).next value y xs pos c.4 in
    (
      c.0,
      omega (arith, c.1),
      omega (arith, c.1),
      ap (λ (n : Link). n.value) kept ∙ c.3,
      subst
          (λ (n : Link).
            IsLinked (appended value top last links) (top + 16) top n.next (y ∷ xs ++ (value ∷ [])))
          (sym kept) rest,
    )

length-append : (x : ℕ) (xs : List ℕ) → length (xs ++ (x ∷ [])) ≡ length xs + 1
length-append x [] = refl
length-append x (y ∷ xs) = omega (arith, length-append x xs)

last-bounds :
    (links : ℕ → Link) (top last p x : ℕ) (xs : List ℕ)
    → IsLinked links top last p (x ∷ xs)
    → (0 < last) × (last < top)
last-bounds links top last p x [] c = (omega (arith, c), omega (arith, c))
last-bounds links top last p x (y ∷ xs) c = last-bounds links top last (links p).next y xs c.4

push_first :
    (value : ℕ) (l : Ilist)
    → (l.tail == null) ≡ true
    → push_back value l ≡ record {
      machine = record l.machine { placement = add64 l.machine.placement 16 };
      links = update l.links l.machine.placement (link value);
      head = l.machine.placement;
      tail = l.machine.placement;
      size = add64 l.size 1;
    }
unfolding push_back placement_kalloc
push_first value l none = rw none refl

push_more :
    (value : ℕ) (l : Ilist)
    → (l.tail == null) ≡ false
    → push_back value l ≡ record {
      machine = record l.machine { placement = add64 l.machine.placement 16 };
      links = appended value l.machine.placement l.tail l.links;
      head = l.head;
      tail = (appended value l.machine.placement l.tail l.links l.tail).next;
      size = add64 l.size 1;
    }
unfolding push_back placement_kalloc
push_more value l some = rw some refl

push_back-IsIlist :
    (value : ℕ) (l : Ilist) (xs : List ℕ)
    → IsIlist l xs
    → 0 < l.machine.placement
    → l.machine.placement + 16 < 2 ^ 64
    → length xs + 1 < 2 ^ 64
    → IsIlist (push_back value l) (xs ++ (value ∷ []))
push_back-IsIlist value l [] h pos room short =
    let top = l.machine.placement in
    let end : add64 top 16 ≡ top + 16 = omega (arith, room) in
    let none : (l.tail == null) ≡ true = ground (arith, h.linked.1) in
    let there : (top == top) ≡ true = ground arith in
    rw (push_first value l none) (record {
      linked = rw (end, there) (refl, pos, omega arith, refl, refl);
      size = omega (arith, h.size);
    })
push_back-IsIlist value l (x ∷ xs) h pos room short =
    let top = l.machine.placement in
    let end : add64 top 16 ≡ top + 16 = omega (arith, room) in
    let bounds = last-bounds l.links top l.tail l.head x xs h.linked in
    let some : (l.tail == null) ≡ false = ground (arith, bounds) in
    let at : (appended value top l.tail l.links l.tail).next ≡ top = ground arith in
    let more = append-IsLinked l.links top l.tail l.head value x xs pos h.linked in
    rw (push_more value l some) (record {
      linked =
          subst
            (λ (t : ℕ).
              IsLinked (appended value top l.tail l.links) (add64 top 16) t l.head
                (x ∷ xs ++ (value ∷ [])))
            (sym at)
            (subst
              (λ (e : ℕ).
                IsLinked (appended value top l.tail l.links) e top l.head (x ∷ xs ++ (value ∷ [])))
              (sym end) more);
      size = omega (arith, h.size, length-append value xs, short);
    })

-- With memory left and fewer than 2 ^ 64 values, `push_back` appends the value to those that a walk from
-- `begin()` to `end()` meets, in order, and keeps the links, the last node and the count right.
pub values-push_back :
    (value : ℕ) (l : Ilist) (xs : List ℕ)
    → IsIlist l xs
    → 0 < l.machine.placement
    → l.machine.placement + 16 < 2 ^ 64
    → length xs + 1 < 2 ^ 64
    → (values (push_back value l) ≡ values l ++ (value ∷ []))
      × IsIlist (push_back value l) (xs ++ (value ∷ []))
values-push_back value l xs h pos room short =
    let h' = push_back-IsIlist value l xs h pos room short in
    (
      values_lem (push_back value l) (xs ++ (value ∷ [])) h'
          ∙ ap (λ (vs : List ℕ). vs ++ (value ∷ [])) (sym (values_lem l xs h)),
      h',
    )
