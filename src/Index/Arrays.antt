-- ===== src/Index/Arrays.antt =====
-- The `array_` of a page of the B+ tree, and the loops that both kinds of pages run over it.
use zlchen_dsaa2031_project.Prelude.{
  ℕ, zero, suc, ◌+◌, ◌-◌, ◌<◌, ◌≡◌, ◌≢◌, refl, List, [], ◌∷◌, ◌++◌, ap, ◌==◌, ◌&&◌, leb, ltb, arith,
  if◌then◌else◌,
}

module _ {A : Type 0} where
  abbrev pub store : (ℕ → A) → ℕ → A → ℕ → A
  store array i x j = if i == j then x else array j

  -- `for (int i = index + n - 1; i >= index; i--) { array_[i + 1] = array_[i]; }`
  unfoldable pub shift_right : (ℕ → A) → ℕ → ℕ → ℕ → A
  shift_right array index zero = array
  shift_right array index (suc n) =
      shift_right (store array (index + n + 1) (array (index + n))) index n

  -- `for (int i = index; i < index + n; i++) { array_[i] = array_[i + 1]; }`
  unfoldable pub shift_left : (ℕ → A) → ℕ → ℕ → ℕ → A
  shift_left array index zero = array
  shift_left array index (suc n) = shift_left (store array index (array (index + 1))) (index + 1) n

  -- `n` cells from `from` on are copied to the other page, from its cell `to` on.
  unfoldable pub copy_to : (ℕ → A) → ℕ → (ℕ → A) → ℕ → ℕ → ℕ → A
  copy_to other to array from zero = other
  copy_to other to array from (suc n) =
      copy_to (store other to (array from)) (to + 1) array (from + 1) n

  -- What the loops leave in a cell.
  pub shift_right_at :
      (array : ℕ → A) (index n j : ℕ)
      → shift_right array index n j
        ≡ (if ltb index j && leb j (index + n) then array (j - 1) else array j)
  unfolding shift_right
  shift_right_at array index zero j = ground arith
  shift_right_at array index (suc n) j =
      ground (arith, shift_right_at (store array (index + n + 1) (array (index + n))) index n j)

  pub shift_left_at :
      (array : ℕ → A) (index n j : ℕ)
      → shift_left array index n j
        ≡ (if leb index j && ltb j (index + n) then array (j + 1) else array j)
  unfolding shift_left
  shift_left_at array index zero j = ground arith
  shift_left_at array index (suc n) j =
      ground (arith, shift_left_at (store array index (array (index + 1))) (index + 1) n j)

  pub copy_to_at :
      (other : ℕ → A) (to : ℕ) (array : ℕ → A) (from n j : ℕ)
      → copy_to other to array from n j
        ≡ (if leb to j && ltb j (to + n) then array (from + (j - to)) else other j)
  unfolding copy_to
  copy_to_at other to array from zero j = ground arith
  copy_to_at other to array from (suc n) j =
      ground (arith, copy_to_at (store other to (array from)) (to + 1) array (from + 1) n j)

  -- The cells as a list.
  unfoldable pub listing : (ℕ → A) → ℕ → ℕ → List A
  listing array first zero = []
  listing array first (suc n) = array first ∷ listing array (first + 1) n

  pub listing_same :
      (array other : ℕ → A) (first first' n : ℕ)
      → ((i : ℕ) → i < n → array (first + i) ≡ other (first' + i))
      → listing array first n ≡ listing other first' n
  unfolding listing
  listing_same array other first first' zero h = refl
  listing_same array other first first' (suc n) h =
      ap2 (ground (arith, h 0 (omega arith)))
        (listing_same array other (first + 1) (first' + 1) n (λ i low. ground (arith, h (i + 1))))
    where
      ap2 : {x y : A} {xs ys : List A} → x ≡ y → xs ≡ ys → x ∷ xs ≡ y ∷ ys
      ap2 e e' = rw (e, e') refl

  pub listing-append :
      (array : ℕ → A) (first n k : ℕ)
      → listing array first (n + k) ≡ listing array first n ++ listing array (first + n) k
  unfolding listing
  listing-append array first zero k = ground arith
  listing-append array first (suc n) k =
      rw (sums, shift) (ap (λ xs. array first ∷ xs) (listing-append array (first + 1) n k))
    where
      sums : suc n + k ≡ suc (n + k)
      sums = omega arith

      shift : first + suc n ≡ first + 1 + n
      shift = omega arith

  pub listing-cons :
      (array : ℕ → A) (first n : ℕ)
      → 0 < n
      → listing array first n ≡ array first ∷ listing array (first + 1) (n - 1)
  unfolding listing
  listing-cons array first zero h = absurd (omega arith)
  listing-cons array first (suc n) h =
      ap (λ k. array first ∷ listing array (first + 1) k) (omega arith)

  pub listing-snoc :
      (array : ℕ → A) (first n : ℕ)
      → listing array first (n + 1) ≡ listing array first n ++ array (first + n) ∷ []
  unfolding listing
  listing-snoc array first n = listing-append array first n 1

pub append_same {ℓ} :
    {A : Type ℓ} {xs xs' ys ys' : List A} → xs ≡ xs' → ys ≡ ys' → xs ++ ys ≡ xs' ++ ys'
append_same e e' = rw (e, e') refl

pub append_assoc {ℓ} : {A : Type ℓ} (xs ys zs : List A) → (xs ++ ys) ++ zs ≡ xs ++ (ys ++ zs)
append_assoc [] ys zs = refl
append_assoc (x ∷ xs) ys zs = ap (λ l. x ∷ l) (append_assoc xs ys zs)

-- The element at the index is another one.
abbrev pub replace_at {ℓ} : {A : Type ℓ} → ℕ → A → List A → List A
replace_at k x [] = []
replace_at zero x (y ∷ ys) = x ∷ ys
replace_at (suc k) x (y ∷ ys) = y ∷ replace_at k x ys

pub listing_replaced :
    {A : Type 0} (f g : ℕ → A) (first n k : ℕ) (x : A)
    → k < n
    → g (first + k) ≡ x
    → ((i : ℕ) → i < n → k ≢ i → g (first + i) ≡ f (first + i))
    → listing g first n ≡ replace_at k x (listing f first n)
unfolding listing
listing_replaced f g first zero k x low here others = absurd (omega arith)
listing_replaced f g first (suc n) zero x low here others = ground (
  arith,
  here,
  listing_same g f (first + 1) (first + 1) n
      (λ i less. ground (arith, others (i + 1) (omega arith) (λ e. omega (arith, e)))),
)
listing_replaced f g first (suc n) (suc k) x low here others = ground (
  arith,
  others 0 (omega arith) (λ e. omega (arith, e)),
  listing_replaced f g (first + 1) n k x (omega arith) (ground (arith, here)) (λ i less other.
      ground (arith, others (i + 1) (omega arith) (λ e. other (omega (arith, e))))),
)
