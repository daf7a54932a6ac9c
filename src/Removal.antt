-- ===== src/Removal.antt =====
-- src/lib/bdev_ubi.c: what happens when a base bdev goes away, ubi_handle_base_bdev_event with
-- ubi_bdev_find_by_base_bdev.
pub mod Owner
use bdev_ubi.Prelude.{ℕ, Option, none, some, List, [], ◌∷◌, ◌==◌, if◌then◌else◌}

-- An entry of g_ubi_bdev_head: the addresses of a ubi_bdev and of its base bdev.
pub record Entry : Type 0 where
  pub ubi_bdev : ℕ
  pub base_bdev : ℕ

-- `enum spdk_bdev_event_type`, as far as the source names it
pub data EventType : Type 0 where
  remove_event other_event : EventType

-- TAILQ_FOREACH over g_ubi_bdev_head
pub ubi_bdev_find_by_base_bdev : List Entry → ℕ → Option Entry
ubi_bdev_find_by_base_bdev [] base = none
ubi_bdev_find_by_base_bdev (e ∷ es) base =
    let rest = ubi_bdev_find_by_base_bdev es base in if e.base_bdev == base then some e else rest

-- The ubi_bdev that spdk_bdev_unregister is called with, if it is called.
pub ubi_handle_base_bdev_remove_event : List Entry → ℕ → Option ℕ
ubi_handle_base_bdev_remove_event es base = elim (ubi_bdev_find_by_base_bdev es base) [
  | none ↦ none
  | some e ↦ some e.ubi_bdev
]

pub ubi_handle_base_bdev_event : List Entry → EventType → ℕ → Option ℕ
unfolding ubi_handle_base_bdev_remove_event
ubi_handle_base_bdev_event es remove_event base = ubi_handle_base_bdev_remove_event es base
ubi_handle_base_bdev_event es other_event base = none
