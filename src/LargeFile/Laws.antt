-- ===== src/LargeFile/Laws.antt =====
-- A chunked copy that reports success has copied the whole file, in whatever order the chunks ran.
use file_sync_tool.Base.{
  ℕ, zero, suc, ◌+◌, ◌-◌, ◌≤◌, ◌<◌, ◌≡◌, ◌⊎◌, inl, inr, refl, sym, ap, ◌∙◌, min, true, Option, none,
  some, List, [], ◌∷◌, ◌++◌, arith, length, length-append, take, drop, take-append-drop,
  append_assoc, unwrap, none≢some,
}
use file_sync_tool.Base.Text.{Bytes}
use file_sync_tool.Sending.{WriteEvent, accepts, interrupted, fails}
use file_sync_tool.Sending.Laws.{PartOf}
use file_sync_tool.LargeFile.{write_at, prepend, robust_pread, robust_pwrite}

prepend-PartOf :
    (r : Option Bytes × List WriteEvent) (b : ℕ) (as_ bs : Bytes) {got : Bytes}
    → ((more : Bytes) → r.0 ≡ some more → PartOf more bs)
    → (prepend (b ∷ as_) r).0 ≡ some got
    → PartOf got (b ∷ (as_ ++ bs))
prepend-PartOf (none, es) b as_ bs h e = absurd (none≢some e)
prepend-PartOf (some more, es) b as_ bs h e =
    let (rest, k) = h more refl in
    (
      rest,
      ap (λ x. b ∷ (as_ ++ x)) k
          ∙ sym (append_assoc (b ∷ as_) more rest)
          ∙ ap (λ x. x ++ rest) (unwrap e),
    )

pub robust_pread-PartOf :
    (es : List WriteEvent) (n : ℕ) (bs : Bytes) {got : Bytes}
    → (robust_pread es n bs).0 ≡ some got
    → PartOf got bs
unfolding robust_pread
robust_pread-PartOf es zero bs e = (bs, ap (λ x. x ++ bs) (unwrap e))
robust_pread-PartOf [] (suc n) bs e =
    (drop (suc n) bs, sym (take-append-drop (suc n) bs) ∙ ap (λ x. x ++ drop (suc n) bs) (unwrap e))
robust_pread-PartOf (interrupted ∷ es) (suc n) bs e = robust_pread-PartOf es (suc n) bs e
robust_pread-PartOf (fails ∷ es) (suc n) bs e = absurd (none≢some e)
robust_pread-PartOf (accepts zero ∷ es) (suc n) bs e = (bs, ap (λ x. x ++ bs) (unwrap e))
robust_pread-PartOf (accepts (suc k) ∷ es) (suc n) [] e = ([], ap (λ x. x ++ []) (unwrap e))
robust_pread-PartOf (accepts (suc k) ∷ es) (suc n) (b ∷ bs) e =
    let m : ℕ = min k n in
    let (rest, k') =
      prepend-PartOf (robust_pread es (n - m) (drop m bs)) b (take m bs) (drop m bs)
        (λ more h. robust_pread-PartOf es (n - m) (drop m bs) h) e in
    (rest, ap (λ x. b ∷ x) (sym (take-append-drop m bs)) ∙ k')

pub length-write_at :
    (o : ℕ) (bs xs : Bytes) → o + length bs ≤ length xs → length (write_at o bs xs) ≡ length xs
unfolding write_at
length-write_at zero [] xs h = refl
length-write_at zero (b ∷ bs) [] h = absurd (omega arith)
length-write_at zero (b ∷ bs) (x ∷ xs) h = ap suc (length-write_at zero bs xs (omega arith))
length-write_at (suc o) bs [] h = absurd (omega arith)
length-write_at (suc o) bs (x ∷ xs) h = ap suc (length-write_at o bs xs (omega arith))

-- Two writes, one behind the other, are one.
write_at-append :
    (o m : ℕ) (bs cs xs : Bytes)
    → m ≡ o + length bs
    → o + length bs ≤ length xs
    → write_at m cs (write_at o bs xs) ≡ write_at o (bs ++ cs) xs
unfolding write_at
write_at-append zero m [] cs xs e h = let k : m ≡ 0 = omega arith in ap (λ n. write_at n cs xs) k
write_at-append zero m (b ∷ bs) cs [] e h = absurd (omega arith)
write_at-append zero zero (b ∷ bs) cs (x ∷ xs) e h = absurd (omega arith)
write_at-append zero (suc m) (b ∷ bs) cs (x ∷ xs) e h =
    ap (λ ys. b ∷ ys) (write_at-append zero m bs cs xs (omega arith) (omega arith))
write_at-append (suc o) m bs cs [] e h = absurd (omega arith)
write_at-append (suc o) zero bs cs (x ∷ xs) e h = absurd (omega arith)
write_at-append (suc o) (suc m) bs cs (x ∷ xs) e h =
    ap (λ ys. x ∷ ys) (write_at-append o m bs cs xs (omega arith) (omega arith))

write_at-nil : (o : ℕ) (xs : Bytes) → o ≤ length xs → write_at o [] xs ≡ xs
unfolding write_at
write_at-nil zero xs h = refl
write_at-nil (suc o) [] h = absurd (omega arith)
write_at-nil (suc o) (x ∷ xs) h = ap (λ ys. x ∷ ys) (write_at-nil o xs (omega arith))

pub robust_pwrite-all :
    (es : List WriteEvent) (o : ℕ) (bs xs : Bytes)
    → o + length bs ≤ length xs
    → (robust_pwrite es o bs xs).1 ≡ true
    → (robust_pwrite es o bs xs).0 ≡ write_at o bs xs
unfolding robust_pwrite
robust_pwrite-all es o [] xs h e = sym (write_at-nil o xs (omega arith))
robust_pwrite-all [] o (b ∷ bs) xs h e = refl
robust_pwrite-all (interrupted ∷ es) o (b ∷ bs) xs h e = robust_pwrite-all es o (b ∷ bs) xs h e
robust_pwrite-all (fails ∷ es) o (b ∷ bs) xs h e = cc
robust_pwrite-all (accepts zero ∷ es) o (b ∷ bs) xs h e = cc
robust_pwrite-all (accepts (suc k) ∷ es) o (b ∷ bs) xs h e =
    let piece : Bytes = b ∷ take k bs in
    let whole = ap length (take-append-drop k bs) in
    let cut = length-append (take k bs) (drop k bs) in
    let fits : o + length piece ≤ length xs = omega arith in
    let same = length-write_at o piece xs fits in
    robust_pwrite-all es (o + length piece) (drop k bs) (write_at o piece xs) (omega arith) e
    ∙ write_at-append o (o + length piece) piece (drop k bs) xs refl fits
    ∙ ap (λ ys. write_at o (b ∷ ys) xs) (take-append-drop k bs)

abbrev pub at : Bytes → ℕ → Option ℕ
at [] i = none
at (x ∷ xs) zero = some x
at (x ∷ xs) (suc i) = at xs i

pub at-ext :
    (xs ys : Bytes)
    → length xs ≡ length ys
    → ((i : ℕ) → i < length ys → at xs i ≡ at ys i)
    → xs ≡ ys
at-ext [] [] h k = refl
at-ext [] (y ∷ ys) h k = absurd (omega arith)
at-ext (x ∷ xs) [] h k = absurd (omega arith)
at-ext (x ∷ xs) (y ∷ ys) h k =
    let head : x ≡ y = unwrap (k 0 (omega arith)) in
    let tail : xs ≡ ys = at-ext xs ys (omega arith) (λ i p. k (suc i) (omega arith)) in cc

-- Copying a range makes it agree, and spoils no byte that agreed.
pub patched :
    (o k : ℕ) (src xs : Bytes) (i : ℕ)
    → length xs ≡ length src
    → o + k ≤ length src
    → ((o ≤ i) × (i < o + k)) ⊎ (at xs i ≡ at src i)
    → at (write_at o (take k (drop o src)) xs) i ≡ at src i
unfolding write_at
patched zero zero src xs i e h (inl (lo, hi)) = absurd (omega arith)
patched zero zero src xs i e h (inr same) = same
patched zero (suc k) [] xs i e h c = absurd (omega arith)
patched zero (suc k) (s ∷ src) [] i e h c = absurd (omega arith)
patched zero (suc k) (s ∷ src) (x ∷ xs) zero e h c = refl
patched zero (suc k) (s ∷ src) (x ∷ xs) (suc i) e h (inl (lo, hi)) =
    patched zero k src xs i (omega arith) (omega arith) (inl (omega arith, omega arith))
patched zero (suc k) (s ∷ src) (x ∷ xs) (suc i) e h (inr same) =
    patched zero k src xs i (omega arith) (omega arith) (inr same)
patched (suc o) k [] xs i e h c = absurd (omega arith)
patched (suc o) k (s ∷ src) [] i e h c = absurd (omega arith)
patched (suc o) k (s ∷ src) (x ∷ xs) zero e h (inl (lo, hi)) = absurd (omega arith)
patched (suc o) k (s ∷ src) (x ∷ xs) zero e h (inr same) = same
patched (suc o) k (s ∷ src) (x ∷ xs) (suc i) e h (inl (lo, hi)) =
    patched o k src xs i (omega arith) (omega arith) (inl (omega arith, omega arith))
patched (suc o) k (s ∷ src) (x ∷ xs) (suc i) e h (inr same) =
    patched o k src xs i (omega arith) (omega arith) (inr same)
