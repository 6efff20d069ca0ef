-- ===== src/X86/Swap/Devices.antt =====
-- `SwapManager::add_swap_device` and `remove_swap_device`.
use km_os.Prelude.{
  same_bytes, ℕ, ◌^◌, ◌<◌, ◌≡◌, refl, ap, ◌∙◌, true, List, [], ◌∷◌, arith, Option-cases, Bool-cases,
  inl, inr, ◌==◌, eq→==, add32, sub32,
}
use km_os.X86.Swap.{
  Device, Space, find_swap_device, add_swap_device, remove_swap_device, swap_file_activate,
}

same_bytes_refl : (path : List ℕ) → same_bytes path path ≡ true
same_bytes_refl [] = refl
same_bytes_refl (x ∷ xs) = rw (eq→== x x refl) (same_bytes_refl xs)

-- A device at the head of the list, with its path and nothing in use, is removed again.
remove_head :
    (dev : Device) (devs : List Device) (total : ℕ)
    → dev.inuse_pages ≡ 0
    → remove_swap_device dev.path (record { devices = dev ∷ devs; total_swap_pages = total })
      ≡ (0, record { devices = devs; total_swap_pages = sub32 total dev.pages })
unfolding remove_swap_device find_swap_device
remove_head dev devs total idle =
    rw
      (
        same_bytes_refl dev.path,
        idle,
        eq→== dev.addr dev.addr refl,
        find_swap_device,
        remove_swap_device,
      )
      refl

back : (n k : ℕ) → n < 2 ^ 32 → k < 2 ^ 32 → sub32 (add32 n k) k ≡ n
back n k h g = omega arith

-- If `add_swap_device` reports success, then removing the path it was given reports success and
-- brings the devices and the total back, for a total within 32 bits.
pub remove-add :
    (dev_block path_block bitmap_block kind priority : ℕ) (path : List ℕ) (s : Space)
    → s.total_swap_pages < 2 ^ 32
    → (add_swap_device dev_block path_block bitmap_block path kind priority s).0 ≡ 0
    → remove_swap_device path
        (add_swap_device dev_block path_block bitmap_block path kind priority s).1
      ≡ (0, s)
unfolding add_swap_device swap_file_activate
remove-add dev_block path_block bitmap_block kind priority path s h =
    elim (Option-cases (find_swap_device s.devices path)) [
      | inr (dev, e) ↦ rw (e, add_swap_device) (λ ok. absurd (omega arith))
      | inl e ↦
          rw (e, add_swap_device)
            (elim (Bool-cases (dev_block == 0)) [
              | inl b ↦ rw b (λ ok. absurd (omega arith))
              | inr b ↦ rw b (elim (Bool-cases (path_block == 0)) [
                | inl p ↦ rw p (λ ok. absurd (omega arith))
                | inr p ↦ rw p (elim (Bool-cases (kind == 0)) [
                  | inr k ↦ rw k (λ ok. absurd (omega arith))
                  | inl k ↦ rw k (elim (Bool-cases (bitmap_block == 0)) [
                    | inl m ↦ rw m (λ ok. absurd (omega arith))
                    | inr m ↦ rw m (λ ok.
                        remove_head _ s.devices _ refl
                        ∙ ap (λ n. (0, record s { total_swap_pages = n }))
                            (back s.total_swap_pages 65536 h (omega arith)))
                  ])
                ])
              ])
            ])
    ]
