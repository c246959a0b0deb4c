-- ===== src/Rpc/Listing/Growth.antt =====
-- A response of RpcServer::listDirectory that has grown by given entries (src/rpc/RpcServer.cpp).
use file_sync_tool.Base.{
  ℕ, suc, ◌+◌, ◌-◌, ◌%◌, ◌<◌, ◌≡◌, ◌↔◌, refl, sym, ap, ◌∙◌, ◌⊎◌, inl, inr, List, [], ◌∷◌, ◌++◌,
  arith, length, length-append, In, ltb, Bool-cases,
}
use native.Mathlib.Nat.{mod-eq_of_lt, mod-lt}
use file_sync_tool.Wire.{of_word, to_word, two32}
use file_sync_tool.Rpc.Handlers.{next_count}
use file_sync_tool.Rpc.Messages.{FileEntry, ListFilesResponse}

module _ (e : FileEntry) where
  pub In-snoc : (xs : List FileEntry) (x : FileEntry) → In e (xs ++ (x ∷ [])) ↔ (In e xs ⊎ (x ≡ e))
  In-snoc [] x = (
    (λ there. elim there [ inl here ↦ inr here | inr nowhere ↦ absurd nowhere ]),
    (λ which. elim which [ inl nowhere ↦ absurd nowhere | inr here ↦ inl here ]),
  )
  In-snoc (y ∷ ys) x =
      let (to, from) = In-snoc ys x in
      (
        (λ there. elim there [
          | inl here ↦ inl (inl here)
          | inr later ↦ elim (to later) [ inl old ↦ inl (inr old) | inr new ↦ inr new ]
        ]),
        (λ which. elim which [
          | inl (inl here) ↦ inl here
          | inl (inr old) ↦ inr (from (inl old))
          | inr new ↦ inr (from (inr new))
        ]),
      )

-- total_count is the number of the entries, as an int32 holds it.
abbrev pub IsCounted : ListFilesResponse → Type 0
IsCounted r = r.total_count ≡ of_word two32 (length r.files % two32)

to_word-of_word : (n : ℕ) → n < two32 → to_word two32 (of_word two32 n) ≡ n
unfolding to_word of_word
to_word-of_word n h = elim (Bool-cases (ltb (n + n) two32)) [
  | inl small ↦ rw small (mod-eq_of_lt h)
  | inr large ↦ rw large (
      let back : two32 - 1 - n < two32 = omega arith in
      let e : (two32 - 1 - n) % two32 ≡ two32 - 1 - n = mod-eq_of_lt back in omega (arith, e))
]

next_count-of_word :
    (n : ℕ) → next_count (of_word two32 (n % two32)) ≡ of_word two32 (suc n % two32)
next_count-of_word n =
    let e = to_word-of_word (n % two32) (mod-lt n (omega arith)) in
    let wraps : (n % two32 + 1) % two32 ≡ suc n % two32 = omega arith in
    ap (λ k. of_word two32 ((k + 1) % two32)) e ∙ ap (of_word two32) wraps

pub IsCounted-snoc :
    (e : FileEntry) (r : ListFilesResponse)
    → IsCounted r
    → IsCounted (record r { files = r.files ++ (e ∷ []); total_count = next_count r.total_count })
IsCounted-snoc e r h =
    let longer : length (r.files ++ (e ∷ [])) ≡ suc (length r.files) =
      omega (arith, length-append r.files (e ∷ [])) in
    ap next_count h
    ∙ next_count-of_word (length r.files)
    ∙ ap (λ k. of_word two32 (k % two32)) (sym longer)

-- A response with more entries, counted.
pub record Grows (More : FileEntry → Type 0) (r r' : ListFilesResponse) : Type 0 where
  pub entries : (e : FileEntry) → In e r'.files ↔ (In e r.files ⊎ More e)
  pub counted : IsCounted r → IsCounted r'
  pub directory : r'.directory ≡ r.directory

pub Grows-none :
    (More : FileEntry → Type 0) (r : ListFilesResponse)
    → ((e : FileEntry) → More e → ⊥)
    → Grows More r r
Grows-none More r never = record {
  entries = λ e.
      ((λ there. inl there), (λ which. elim which [ inl old ↦ old | inr m ↦ absurd (never e m) ]));
  counted = λ c. c;
  directory = refl;
}

pub Grows-then :
    (A B M : FileEntry → Type 0) (r r1 r2 : ListFilesResponse)
    → Grows A r r1
    → Grows B r1 r2
    → ((e : FileEntry) → M e ↔ (A e ⊎ B e))
    → Grows M r r2
Grows-then A B M r r1 r2 g h split = record {
  entries = λ e. (
    (λ there. elim ((h.entries e).0 there) [
      | inr b ↦ inr ((split e).1 (inr b))
      | inl mid ↦ elim ((g.entries e).0 mid) [
        | inl old ↦ inl old
        | inr a ↦ inr ((split e).1 (inl a))
      ]
    ]),
    (λ which. elim which [
      | inl old ↦ (h.entries e).1 (inl ((g.entries e).1 (inl old)))
      | inr m ↦ elim ((split e).0 m) [
        | inl a ↦ (h.entries e).1 (inl ((g.entries e).1 (inr a)))
        | inr b ↦ (h.entries e).1 (inr b)
      ]
    ]),
  );
  counted = λ c. h.counted (g.counted c);
  directory = h.directory ∙ g.directory;
}

pub Grows-as :
    (A B : FileEntry → Type 0) (r r' : ListFilesResponse)
    → Grows A r r'
    → ((e : FileEntry) → B e ↔ A e)
    → Grows B r r'
Grows-as A B r r' g same = record {
  entries = λ e. (
    (λ there. elim ((g.entries e).0 there) [ inl old ↦ inl old | inr a ↦ inr ((same e).1 a) ]),
    (λ which. elim which [
      | inl old ↦ (g.entries e).1 (inl old)
      | inr b ↦ (g.entries e).1 (inr ((same e).0 b))
    ]),
  );
  counted = g.counted;
  directory = g.directory;
}
