-- ===== src/Torrent/Info/Numbers.antt =====
-- The estimates of torrent/service.py: the time left and the progress, and a file with a missing size.
use native.Mathlib.Nat.{div-mul-le_self, lt-div-mul-add, le-div_iff_mul-le}
use amarr.Prelude.{
  leb, Bool-cases, ◌+◌, false, inl, inr, ℕ, zero, suc, ◌/◌, ◌*◌, ◌≤◌, ◌<◌, ◌-◌, ◌≡◌, ◌⊎◌, refl,
  Option, none, some, arith, min, ◌==◌, if◌then◌else◌,
}
use amarr.Prelude.Int.{pos, pos--ℤ}
use amarr.Py.Result.{ok, err, type_error}
use amarr.Py.Seq.{Text}
use amarr.Jamule.Model.PartFile.{PartFileTag}
use amarr.Torrent.Info.{no_eta, compute_eta, eta_at, compute_progress, transferring_to_info}

-- The seconds left by the rule in words: none known at speed 0, otherwise whole seconds, capped.
abbrev seconds_left : ℕ → ℕ → ℕ
seconds_left remaining speed = if speed == 0 then no_eta else min (remaining / speed) no_eta

eta_at-pos : (r s : ℕ) → eta_at (pos r) s ≡ pos (seconds_left r s)
unfolding eta_at
eta_at-pos r s = ground arith

compute_eta-seconds_left :
    (speed size_full size_done : ℕ)
    → size_done ≤ size_full
    → compute_eta (some speed) (some size_full) (some size_done)
      ≡ ok (pos (seconds_left (size_full - size_done) speed))
unfolding compute_eta
compute_eta-seconds_left speed size_full size_done h =
    rw (pos--ℤ size_full size_done h, eta_at-pos (size_full - size_done) speed) refl

-- The estimate `e` for what remains: the value for no estimate at speed 0; otherwise at most that value,
-- never longer than the rest takes, and shorter by less than a second unless it is that value.
abbrev pub IsEstimate : ℕ → ℕ → ℕ → Type 0
IsEstimate remaining speed e =
    ((speed ≡ 0) × (e ≡ no_eta))
    ⊎ ((e ≤ no_eta) × (e * speed ≤ remaining) × ((e ≡ no_eta) ⊎ (remaining < e * speed + speed)))

capped-IsEstimate : (r s : ℕ) → 0 < s → IsEstimate r s (min (r / s) no_eta)
capped-IsEstimate r s h = elim (Bool-cases (leb (r / s) no_eta)) [
  | inl within ↦
      let small : min (r / s) no_eta ≡ r / s = ground arith in
      rw (small) (inr (ground arith, div-mul-le_self r s, inr (lt-div-mul-add h)))
  | inr above ↦
      let capped : min (r / s) no_eta ≡ no_eta = ground arith in
      let much : no_eta * s ≤ r = (le-div_iff_mul-le h).0 (ground arith) in
      rw (capped) (inr (omega arith, much, inl refl))
]

seconds_left-IsEstimate : (r s : ℕ) → IsEstimate r s (seconds_left r s)
seconds_left-IsEstimate r zero = inl (refl, refl)
seconds_left-IsEstimate r (suc s) =
    let running : (suc s == 0) ≡ false = ground arith in
    rw (running) (capped-IsEstimate r (suc s) (omega arith))

-- With no more done than there is, an estimate is returned: 8640000 at speed 0; otherwise at most
-- 8640000, not longer than the rest takes, and short of it by less than a second unless it is 8640000.
pub compute_eta-IsEstimate :
    (speed size_full size_done : ℕ)
    → size_done ≤ size_full
    → (e : ℕ) × (compute_eta (some speed) (some size_full) (some size_done) ≡ ok (pos e))
      × IsEstimate (size_full - size_done) speed e
compute_eta-IsEstimate speed size_full size_done h = (
  seconds_left (size_full - size_done) speed,
  compute_eta-seconds_left speed size_full size_done h,
  seconds_left-IsEstimate (size_full - size_done) speed,
)

-- With no more done than there is, the progress is a fraction that is at most one and, times the full
-- size, gives what is done.
pub compute_progress-IsFraction :
    (size_done size_full : ℕ)
    → size_done ≤ size_full
    → let progress = compute_progress (some size_done) (some size_full) in
      (progress.num ≤ progress.den)
      × (0 < progress.den)
      × (progress.num * size_full ≡ size_done * progress.den)
unfolding compute_progress
compute_progress-IsFraction zero zero h = (omega arith, omega arith, refl)
compute_progress-IsFraction zero (suc full) h = (omega arith, omega arith, omega arith)
compute_progress-IsFraction (suc size) zero h = absurd (omega arith)
compute_progress-IsFraction (suc size) (suc full) h = (h, omega arith, refl)

abbrev pub IsIncomplete : PartFileTag → Type 0
IsIncomplete dl = (dl.shared.size_full ≡ none) ⊎ (dl.size_done ≡ none) ⊎ (dl.speed ≡ none)

-- A file in the queue whose size, amount done or speed is missing has no view: `TypeError` is raised.
pub transferring_to_info-missing :
    (path : Text) (dl : PartFileTag) (category : Option Text)
    → IsIncomplete dl
    → transferring_to_info path dl category ≡ err type_error
unfolding transferring_to_info compute_eta
transferring_to_info-missing path dl category h = ground (arith)
