-- ===== src/Ilist.antt =====
-- src/kernel/libs/ilist.hpp: the linked list as nodes at addresses, for values of one word. `push_front` does
-- nothing in the source, and `delete` (src/kernel/libs/new.cpp) frees nothing, so `clear` leaves the nodes.
pub mod Values
use coronel.Base.{ℕ, zero, suc, Bool, false, List, [], ◌∷◌, ◌==◌, if◌then◌else◌, add64}
use coronel.Machine.{Machine, null, update, placement_kalloc}

-- `ilist::node`
pub record Link : Type 0 where
  pub value : ℕ
  pub next : ℕ

abbrev pub link : ℕ → Link
link value = record { value = value; next = null }

abbrev pub sizeof_link : ℕ
sizeof_link = 16

-- The fields of an `ilist`, and the memory that it works on.
pub record Ilist : Type 0 where
  pub machine : Machine
  pub links : ℕ → Link
  pub head : ℕ
  pub tail : ℕ
  pub size : ℕ

-- `ilist::ilist`
abbrev pub empty_list : Machine → (ℕ → Link) → Ilist
empty_list m links = record { machine = m; links = links; head = null; tail = null; size = 0 }

unfoldable pub empty : Ilist → Bool
empty l = l.size == 0

unfoldable pub push_back : ℕ → Ilist → Ilist
push_back value l =
    let (place, _, m) = placement_kalloc sizeof_link false l.machine in
    let links₁ = update l.links place (link value) in
    let links₂ = update links₁ l.tail (record (links₁ l.tail) { next = place }) in
    if l.tail == null
    then record { machine = m; links = links₁; head = place; tail = place; size = add64 l.size 1 }
    else record {
      machine = m;
      links = links₂;
      head = l.head;
      tail = (links₂ l.tail).next;
      size = add64 l.size 1;
    }

-- The loop of `clear` reads the links and deletes the nodes, which changes nothing.
unfoldable pub clear : Ilist → Ilist
clear l = record l { head = null; tail = null; size = 0 }

-- The values from `begin()` to `end()`, through `operator!=`, `operator*` and `operator++`.
unfoldable pub values_from : ℕ → ℕ → (ℕ → Link) → List ℕ
values_from zero current links = []
values_from (suc n) current links =
    let rest = values_from n (links current).next links in
    if current == null then [] else (links current).value ∷ rest

-- A list has one node for each of its values.
unfoldable pub values : Ilist → List ℕ
values l = values_from (suc l.size) l.head l.links
