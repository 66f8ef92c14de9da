-- ===== src/LinkedList/Nodes.antt =====
-- What 10_linked_list/my_linked_list.c keeps allocated.
use linux_driver_development.Base.{
  Option, [], arith, inl, inr, map, neg, none, pos, refl, some, ℕ, ◌∷◌, ◌≡◌, ◌≢◌, ◌⊎◌,
}
use linux_driver_development.Kernel.{enomem}
use linux_driver_development.LinkedList.{Driver, MyData, iterate, kfree, loaded, my_exit, my_init}

-- Where the calls of kmalloc return different addresses, loading the module either has three nodes,
-- numbered 0, 1 and 2 in the order of the list and of the log, with names that fit their 32 bytes, and
-- unloading it then frees all three; or it returns -ENOMEM with an empty list and nothing allocated.
-- No path frees an address that is not allocated.
pub linked_list_lifecycle :
    (p q r : Option ℕ)
    → ((a b : ℕ) → p ≡ some a → q ≡ some b → a ≢ b)
    → ((a b : ℕ) → p ≡ some a → r ≡ some b → a ≢ b)
    → ((a b : ℕ) → q ≡ some a → r ≡ some b → a ≢ b)
    → ((d : Driver) × (my_init p q r ≡ some (pos 0, d))
        × (map (λ (n : MyData). n.id) d.my_list ≡ 0 ∷ 1 ∷ 2 ∷ [])
        × (d.logged ≡ 0 ∷ 1 ∷ 2 ∷ [])
        × (my_exit d ≡ some (record d { my_list = []; allocated = [] })))
      ⊎ (my_init p q r ≡ some (neg (pos enomem), loaded))
unfolding my_init my_exit iterate kfree
linked_list_lifecycle none q r pq pr qr = inr refl
linked_list_lifecycle (some a) none r pq pr qr = inr (ground arith)
linked_list_lifecycle (some a) (some b) none pq pr qr = inr (ground (arith, pq a b refl refl))
linked_list_lifecycle (some a) (some b) (some c) pq pr qr =
    inl (_, refl, refl, refl, ground (arith, pq a b refl refl, pr a c refl refl, qr b c refl refl))
