-- ===== src/Scanner/Banner/Sanitized.antt =====
-- What `sanitize_banner` lets through.
use ip_finder.Common.{
  ℕ, ◌≤◌, ◌<◌, Bool, false, [], ◌∷◌, ◌≡◌, refl, ◌∙◌, ap, ◌==◌, ==_iff, All, arith,
}
use ip_finder.Common.Bytes.{Bytes, codes, starts_with, strip_end}
use ip_finder.Scanner.Banner.{is_ssh_identification, visible, is_blank, sanitize_banner}

abbrev pub IsVisible : ℕ → Type 0
IsVisible c = (0x20 ≤ c) × (c < 0x7f)

visible-IsVisible : (raw : Bytes) → All IsVisible (visible raw)
unfolding visible
visible-IsVisible [] = tt
visible-IsVisible (c ∷ cs) = ground (arith, visible-IsVisible cs)

All-strip_end : (P : ℕ → Type 0) (p : ℕ → Bool) (s : Bytes) → All P s → All P (strip_end p s)
unfolding strip_end
All-strip_end P p [] h = tt
All-strip_end P p (c ∷ s) h = ground (arith, All-strip_end P p s h.1)

strip_end_idem : (p : ℕ → Bool) (s : Bytes) → strip_end p (strip_end p s) ≡ strip_end p s
unfolding strip_end
strip_end_idem p [] = refl
strip_end_idem p (c ∷ s) = ground (arith, strip_end_idem p s)

visible_fixed : (s : Bytes) → All IsVisible s → visible s ≡ s
unfolding visible
visible_fixed [] h = refl
visible_fixed (c ∷ s) h = ground (arith, visible_fixed s h.1)

-- A prefix whose bytes meet the test nowhere is not touched by stripping.
starts_with-strip_end :
    (p : ℕ → Bool) (q s : Bytes)
    → All (λ c. p c ≡ false) q
    → starts_with q (strip_end p s) ≡ starts_with q s
unfolding starts_with strip_end
starts_with-strip_end p [] s h = refl
starts_with-strip_end p (c ∷ q) [] h = refl
starts_with-strip_end p (c ∷ q) (d ∷ s) h =
    ground (arith, ==_iff c d, λ (e : c ≡ d). ap p e, starts_with-strip_end p q s h.1)

starts_with-visible :
    (q s : Bytes)
    → All (λ c. (0x20 ≤ c) × (c < 0x7f) × ((c == b'?') ≡ false)) q
    → starts_with q (visible s) ≡ starts_with q s
unfolding starts_with visible
starts_with-visible [] s h = refl
starts_with-visible (c ∷ q) [] h = refl
starts_with-visible (c ∷ q) (d ∷ s) h = ground (arith, starts_with-visible q s h.1)

-- Whatever a peer sends, the banner holds printable ASCII only, sanitizing it again changes
-- nothing, and it identifies as SSH exactly when the raw bytes start with "SSH-".
pub sanitize_banner-safe :
    (raw : Bytes)
    → All IsVisible (sanitize_banner raw)
      × (sanitize_banner (sanitize_banner raw) ≡ sanitize_banner raw)
      × (is_ssh_identification (sanitize_banner raw) ≡ starts_with (codes "SSH-") raw)
unfolding sanitize_banner is_ssh_identification
sanitize_banner-safe raw =
    let seen = All-strip_end IsVisible is_blank (visible raw) (visible-IsVisible raw) in
    (
      seen,
      ap (strip_end is_blank) (visible_fixed (strip_end is_blank (visible raw)) seen)
          ∙ strip_end_idem is_blank (visible raw),
      starts_with-strip_end is_blank (codes "SSH-") (visible raw) (ground arith)
          ∙ starts_with-visible (codes "SSH-") raw (ground arith),
    )
