-- ===== src/Sending/Laws.antt =====
-- What the sending loops hand over.
use file_sync_tool.Base.{
  ◌≡◌, refl, ap, ◌∙◌, true, List, [], ◌∷◌, ◌++◌, append-nil, append_assoc, sym, take, drop,
  take-append-drop,
}
use file_sync_tool.Base.Text.{Bytes}
use file_sync_tool.Sending.{WriteEvent, accepts, interrupted, fails, write_loop, send_loop}

pub write_loop-all :
    (es : List WriteEvent) (bs : Bytes) → (write_loop es bs).1 ≡ true → (write_loop es bs).0 ≡ bs
unfolding write_loop
write_loop-all [] bs h = refl
write_loop-all (e ∷ es) [] h = refl
write_loop-all (accepts k ∷ es) (b ∷ bs) h =
    ap (◌++◌ (take k (b ∷ bs))) (write_loop-all es (drop k (b ∷ bs)) h)
    ∙ take-append-drop k (b ∷ bs)
write_loop-all (interrupted ∷ es) (b ∷ bs) h = write_loop-all es (b ∷ bs) h
write_loop-all (fails ∷ es) (b ∷ bs) h = cc

pub send_loop-all :
    (es : List WriteEvent) (bs : Bytes) → (send_loop es bs).1 ≡ true → (send_loop es bs).0 ≡ bs
unfolding send_loop
send_loop-all [] bs h = refl
send_loop-all (e ∷ es) [] h = refl
send_loop-all (accepts k ∷ es) (b ∷ bs) h =
    ap (◌++◌ (take k (b ∷ bs))) (send_loop-all es (drop k (b ∷ bs)) h) ∙ take-append-drop k (b ∷ bs)
send_loop-all (interrupted ∷ es) (b ∷ bs) h = cc
send_loop-all (fails ∷ es) (b ∷ bs) h = cc

abbrev pub PartOf : Bytes → Bytes → Type 0
PartOf done bs = (rest : Bytes) × (bs ≡ done ++ rest)

PartOf-append : (k more rest : Bytes) → PartOf more rest → PartOf (k ++ more) (k ++ rest)
PartOf-append k more rest (left, e) = (left, ap (◌++◌ k) e ∙ sym (append_assoc k more left))

-- What was accepted is a first part of the bytes, whatever the calls did.
pub write_loop-PartOf : (es : List WriteEvent) (bs : Bytes) → PartOf (write_loop es bs).0 bs
unfolding write_loop
write_loop-PartOf [] bs = ([], sym (append-nil bs))
write_loop-PartOf (e ∷ es) [] = ([], refl)
write_loop-PartOf (accepts k ∷ es) (b ∷ bs) =
    let (left, e) = PartOf-append (take k (b ∷ bs)) _ _ (write_loop-PartOf es (drop k (b ∷ bs))) in
    (left, sym (take-append-drop k (b ∷ bs)) ∙ e)
write_loop-PartOf (interrupted ∷ es) (b ∷ bs) = write_loop-PartOf es (b ∷ bs)
write_loop-PartOf (fails ∷ es) (b ∷ bs) = (b ∷ bs, refl)

-- No call fails; interruptions and short counts are allowed.
abbrev pub NeverFails : List WriteEvent → Type 0
NeverFails [] = Unit {0}
NeverFails (fails ∷ es) = ⊥
NeverFails (accepts k ∷ es) = NeverFails es
NeverFails (interrupted ∷ es) = NeverFails es

pub write_loop-NeverFails :
    (es : List WriteEvent) (bs : Bytes)
    → NeverFails es
    → ((write_loop es bs).1 ≡ true) × NeverFails (write_loop es bs).2
unfolding write_loop
write_loop-NeverFails [] bs h = (refl, tt)
write_loop-NeverFails (fails ∷ es) bs h = absurd h
write_loop-NeverFails (accepts k ∷ es) [] h = (refl, h)
write_loop-NeverFails (accepts k ∷ es) (b ∷ bs) h = write_loop-NeverFails es (drop k (b ∷ bs)) h
write_loop-NeverFails (interrupted ∷ es) [] h = (refl, h)
write_loop-NeverFails (interrupted ∷ es) (b ∷ bs) h = write_loop-NeverFails es (b ∷ bs) h

-- Every call accepts something or nothing, and none fails.
abbrev pub OnlyAccepts : List WriteEvent → Type 0
OnlyAccepts [] = Unit {0}
OnlyAccepts (accepts k ∷ es) = OnlyAccepts es
OnlyAccepts (interrupted ∷ es) = ⊥
OnlyAccepts (fails ∷ es) = ⊥

pub send_loop-OnlyAccepts :
    (es : List WriteEvent) (bs : Bytes)
    → OnlyAccepts es
    → ((send_loop es bs).1 ≡ true) × OnlyAccepts (send_loop es bs).2
unfolding send_loop
send_loop-OnlyAccepts [] bs h = (refl, tt)
send_loop-OnlyAccepts (interrupted ∷ es) bs h = absurd h
send_loop-OnlyAccepts (fails ∷ es) bs h = absurd h
send_loop-OnlyAccepts (accepts k ∷ es) [] h = (refl, h)
send_loop-OnlyAccepts (accepts k ∷ es) (b ∷ bs) h = send_loop-OnlyAccepts es (drop k (b ∷ bs)) h
