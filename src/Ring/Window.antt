-- ===== src/Ring/Window.antt =====
-- A run of slots that goes round the end of an array, as a list.
use native.Mathlib.Nat.{
  mod-add-mod, mod-eq_of_lt, mod-lt, div-add-mod, mul-le-mul_left, mul-suc, add-mod_right, add-zero,
}
use native.Mathlib.Decide.{dec_lt}
use native.Mathlib.Numerals.{add-one}
use pgraft.Base.{
  ℕ, zero, suc, ◌+◌, ◌-◌, ◌*◌, ◌/◌, ◌%◌, ◌<◌, ◌≤◌, ◌≡◌, ◌≢◌, ◌∙◌, refl, sym, ap, List, [], ◌∷◌,
  length, get_or, set, take, drop, get_or-set_self, get_or-set_ne, arith,
}

apart : (size h t a b : ℕ) → h < t → t < h + size → size * a + t ≢ size * b + h
apart size h t a b lt near e = elim (dec_lt a b) [
  | yes p ↦ absurd (omega (arith, mul-le-mul_left size p, mul-suc size a))
  | no p ↦ absurd (omega (arith, mul-le-mul_left {m = b} {n = a} size (omega arith)))
]

-- Two positions less than `size` apart stand in different slots.
pub mod-ne : (size h t : ℕ) → h < t → t < h + size → h % size ≢ t % size
mod-ne size h t lt near e =
    apart size h t (h / size) (t / size) lt near
      (omega (arith, div-add-mod h size, div-add-mod t size))

module _ {ℓ} {A : Type ℓ} (size : ℕ) (d : A) where
  -- The `n` elements from position `h` on.
  abbrev pub window : List A → ℕ → ℕ → List A
  window slots h zero = []
  window slots h (suc n) = get_or slots (h % size) d ∷ window slots (suc h) n

  pub length-window : (slots : List A) (h n : ℕ) → length (window slots h n) ≡ n
  length-window slots h zero = refl
  length-window slots h (suc n) = ap suc (length-window slots (suc h) n)

  window-congr :
      (slots : List A) (h t n : ℕ) → h % size ≡ t % size → window slots h n ≡ window slots t n
  window-congr slots h t zero e = refl
  window-congr slots h t (suc n) e = cc (
    ap (λ i. get_or slots i d) e,
    window-congr slots (suc h) (suc t) n (suc-mod h ∙ ap (λ i. (i + 1) % size) e ∙ sym (suc-mod t)),
  )
    where
      suc-mod : (m : ℕ) → suc m % size ≡ (m % size + 1) % size
      suc-mod m = ap (λ i. i % size) (sym (add-one m)) ∙ sym (mod-add-mod m size 1)

  -- Only the slot of the first position counts.
  pub window-mod :
      (slots : List A) (h n : ℕ) → 0 < size → window slots (h % size) n ≡ window slots h n
  window-mod slots h n pos = window-congr slots (h % size) h n (mod-eq_of_lt (mod-lt h pos))

  -- The element at a place of the window.
  pub get_or-window :
      (slots : List A) (h n k : ℕ)
      → k < n
      → get_or (window slots h n) k d ≡ get_or slots ((h + k) % size) d
  get_or-window slots h zero k lt = elim lt [ ]
  get_or-window slots h (suc n) zero lt = ap (λ i. get_or slots (i % size) d) (omega arith)
  get_or-window slots h (suc n) (suc k) lt =
      get_or-window slots (suc h) n k (omega arith)
      ∙ ap (λ i. get_or slots (i % size) d) (omega arith)

  -- A write at a position outside the window, and inside it.
  pub window-set_out :
      (slots : List A) (h n t : ℕ) (x : A)
      → h + n ≤ t
      → t < h + size
      → window (set slots (t % size) x) h n ≡ window slots h n
  window-set_out slots h zero t x le near = refl
  window-set_out slots h (suc n) t x le near =
      rw (window-set_out slots (suc h) n t x (omega arith) (omega arith)) (
        ap (λ y. y ∷ window slots (suc h) n)
          (get_or-set_ne slots (t % size) (h % size) x d
            (λ e. mod-ne size h t (omega arith) near (sym e))))

  pub window-set_in :
      (slots : List A) (h n k : ℕ) (x : A)
      → length slots ≡ size
      → k < n
      → n ≤ size
      → window (set slots ((h + k) % size) x) h n ≡ set (window slots h n) k x
  window-set_in slots h zero k x fits lt le = elim lt [ ]
  window-set_in slots h (suc n) zero x fits lt le =
      ap (λ p. window (set slots (p % size) x) h (suc n)) (add-zero h)
      ∙ cc (
        get_or-set_self slots (h % size) x d (rw fits (mod-lt h (omega arith))),
        ap (λ i. window (set slots i x) (suc h) n) (sym (add-mod_right h size)),
        window-set_out slots (suc h) n (h + size) x (omega arith) (omega arith),
      )
  window-set_in slots h (suc n) (suc k) x fits lt le = cc (
    get_or-set_ne slots ((h + suc k) % size) (h % size) x d
        (λ e. mod-ne size h (h + suc k) (omega arith) (omega arith) (sym e)),
    ap (λ i. window (set slots (i % size) x) (suc h) n) (shift h k),
    window-set_in slots (suc h) n k x fits (omega arith) (omega arith),
  )
    where
      shift : (h k : ℕ) → h + suc k ≡ suc h + k
      shift h k = omega arith

  pub window-take :
      (slots : List A) (h n k : ℕ) → k ≤ n → take k (window slots h n) ≡ window slots h k
  window-take slots h n zero le = refl
  window-take slots h zero (suc k) le = elim le [ ]
  window-take slots h (suc n) (suc k) le =
      ap (λ t. get_or slots (h % size) d ∷ t) (window-take slots (suc h) n k (omega arith))

  pub window-drop :
      (slots : List A) (h n k : ℕ)
      → k ≤ n
      → drop k (window slots h n) ≡ window slots (h + k) (n - k)
  window-drop slots h n zero le =
      let a : h ≡ h + 0 = omega arith in let b : n ≡ n - 0 = omega arith in cc (a, b)
  window-drop slots h zero (suc k) le = elim le [ ]
  window-drop slots h (suc n) (suc k) le =
      let a : suc h + k ≡ h + suc k = omega arith in
      let b : n - k ≡ suc n - suc k = omega arith in
      cc (window-drop slots (suc h) n k (omega arith), a, b)
