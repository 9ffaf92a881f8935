-- ===== src/Arch/Pic/Tests.antt =====
-- Runs of pic.c and its theorems at concrete inputs.
use goshkik_os.Prelude.{ℕ, ◌≡◌, refl, [], ◌∷◌}
use goshkik_os.Arch.Pic.{pic_mask_all, pic_remap, pic_send_eoi}

abbrev registers : ℕ → ℕ
registers p = 0xFE

remap_run :
    pic_remap 0x20 0x28
    ≡ (0x20, 0x11)
      ∷ (0xA0, 0x11)
      ∷ (0x21, 0x20)
      ∷ (0xA1, 0x28)
      ∷ (0x21, 4)
      ∷ (0xA1, 2)
      ∷ (0x21, 1)
      ∷ (0xA1, 1)
      ∷ (0x21, 0xFE)
      ∷ (0xA1, 0xFF)
      ∷ []
unfolding pic_remap
remap_run = refl

eoi_run : pic_send_eoi 9 ≡ (0xA0, 0x20) ∷ (0x20, 0x20) ∷ []
unfolding pic_send_eoi
eoi_run = refl

mask_all_run : pic_mask_all ≡ (0x21, 0xFF) ∷ (0xA1, 0xFF) ∷ []
unfolding pic_mask_all
mask_all_run = refl
