-- ===== src/LinkedList.antt =====
-- 10_linked_list/my_linked_list.c: three nodes are put on a kernel list; unloading the module, or a
-- failed allocation, takes every node off again.
pub mod Nodes
mod Tests
use mathlib.Core.Option
use linux_driver_development.Base.{
  List, Option, [], codes, if◌then◌else◌, map, neg, none, pos, some, ℕ, ℤ, ◌++◌, ◌==◌, ◌∷◌,
}
use linux_driver_development.Kernel.{enomem}

-- `struct my_data`, with the address that kmalloc gave it. The list head is the kernel's; its place
-- in the list of nodes is their order.
pub record MyData : Type 0 where
  pub address : ℕ
  pub id : ℕ
  pub name : List ℕ

-- `my_list`, the addresses that are allocated, the newest first, and the identifiers logged.
pub record Driver : Type 0 where
  pub my_list : List MyData
  pub allocated : List ℕ
  pub logged : List ℕ

abbrev pub loaded : Driver
loaded = record { my_list = []; allocated = []; logged = [] }

-- kfree takes one address off; `none` frees what is not allocated.
pub kfree : ℕ → List ℕ → Option (List ℕ)
kfree a [] = none
kfree a (b ∷ bs) = if a == b then some bs else Option.map (λ r. b ∷ r) (kfree a bs)

-- The loop that deletes and frees every node, the same at `mem_free` and in `my_exit`: the addresses
-- that are allocated afterwards.
unfoldable pub free_nodes : List MyData → List ℕ → Option (List ℕ)
unfolding kfree
free_nodes [] heap = some heap
free_nodes (node ∷ nodes) heap = elim (kfree node.address heap) [
  | none ↦ none
  | some heap' ↦ free_nodes nodes heap'
]

-- The label `mem_free`; the list is empty afterwards.
mem_free : Driver → Option (ℤ × Driver)
unfolding free_nodes
mem_free d = elim (free_nodes d.my_list d.allocated) [
  | none ↦ none
  | some heap ↦ some (neg (pos enomem), record d { my_list = []; allocated = heap })
]

-- One of the three blocks of `my_init`: allocate a node, fill it in, append it with list_add_tail,
-- and go on with `next`. The first argument is what kmalloc returns.
add_node : Option ℕ → ℕ → List ℕ → (Driver → Option (ℤ × Driver)) → Driver → Option (ℤ × Driver)
unfolding mem_free
add_node none id name next d = mem_free d
add_node (some a) id name next d = next (record d {
  my_list = d.my_list ++ (record { address = a; id = id; name = name } ∷ []);
  allocated = a ∷ d.allocated;
})

-- The list_for_each loop, which logs every node.
pub iterate : Driver → Option (ℤ × Driver)
iterate d = some (pos 0, record d { logged = map (λ (n : MyData). n.id) d.my_list })

-- `my_init`, where the calls of kmalloc return the three arguments.
pub my_init : Option ℕ → Option ℕ → Option ℕ → Option (ℤ × Driver)
unfolding add_node iterate
my_init p q r =
    add_node p 0 (codes "MP Coding")
      (add_node q 1 (codes "Hello World") (add_node r 2 (codes "Madhawa Polkotuwa") iterate)) loaded

-- `my_exit`: the list is empty afterwards.
pub my_exit : Driver → Option Driver
unfolding free_nodes
my_exit d = elim (free_nodes d.my_list d.allocated) [
  | none ↦ none
  | some heap ↦ some (record d { my_list = []; allocated = heap })
]
