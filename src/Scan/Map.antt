-- ===== src/Scan/Map.antt =====
-- The maps of a scan: what a lookup finds after an entry is set or others are inserted.
use file_sync_tool.Base.{
  In, All, All-append, ◌≡◌, ◌≢◌, refl, sym, ap, ◌∙◌, subst, inl, inr, Bool, true, false, Option,
  none, some, [], ◌∷◌, ◌++◌, arith, if◌then◌else◌, Bool-cases, unwrap, none≢some,
}
use file_sync_tool.Base.Text.{Bytes, bytes_eq, bytes_eq_iff}
use file_sync_tool.Metadata.{FileMetadata, MetadataMap, find}
use file_sync_tool.Scan.{set_entry, insert_new, insert_entries}

abbrev pub Entry : Type 0
Entry = Bytes × FileMetadata

pub find-set_entry :
    (path : Bytes) (meta : FileMetadata) (map : MetadataMap) (p : Bytes)
    → find p (set_entry path meta map) ≡ (if bytes_eq path p then some meta else find p map)
unfolding find set_entry
find-set_entry path meta [] p = refl
find-set_entry path meta ((q, m) ∷ rest) p =
    ground (arith, find-set_entry path meta rest p, bytes_eq_iff q path, bytes_eq_iff path p)

abbrev pub or_else : Option FileMetadata → Option FileMetadata → Option FileMetadata
or_else none o = o
or_else (some m) o = some m

find-append :
    (map : MetadataMap) (path : Bytes) (meta : FileMetadata) (p : Bytes)
    → find p (map ++ (path, meta) ∷ [])
      ≡ or_else (find p map) (if bytes_eq path p then some meta else none)
unfolding find
find-append [] path meta p = refl
find-append ((q, m) ∷ rest) path meta p = elim (Bool-cases (bytes_eq q p)) [
  | inl here ↦ rw here refl
  | inr there ↦ rw there (find-append rest path meta p)
]

or_else-none : (o : Option FileMetadata) → or_else o none ≡ o
or_else-none none = refl
or_else-none (some m) = refl

or_else_assoc : (a b c : Option FileMetadata) → or_else (or_else a b) c ≡ or_else a (or_else b c)
or_else_assoc none b c = refl
or_else_assoc (some m) b c = refl

find-insert_new :
    (path : Bytes) (meta : FileMetadata) (map : MetadataMap) (o : Option FileMetadata) (p : Bytes)
    → find path map ≡ o
    → find p (insert_new path meta map o)
      ≡ or_else (find p map) (if bytes_eq path p then some meta else none)
find-insert_new path meta map none p e = find-append map path meta p
find-insert_new path meta map (some old) p e = elim (Bool-cases (bytes_eq path p)) [
  | inr other ↦ rw other (sym (or_else-none (find p map)))
  | inl same ↦
      let found : find p map ≡ some old =
        ap (λ q. find q map) (sym ((bytes_eq_iff path p).0 same)) ∙ e in
      rw found refl
]

pull :
    (b : Bool) (m : FileMetadata) (o : Option FileMetadata)
    → or_else (if b then some m else none) o ≡ (if b then some m else o)
pull true m o = refl
pull false m o = refl

-- An insertion keeps what is there and adds the rest.
pub find-insert_entries :
    (map sub : MetadataMap) (p : Bytes)
    → find p (insert_entries map sub) ≡ or_else (find p map) (find p sub)
unfolding insert_entries find
find-insert_entries map [] p = sym (or_else-none (find p map))
find-insert_entries map ((path, meta) ∷ rest) p =
    let map' : MetadataMap = insert_new path meta map (find path map) in
    find-insert_entries map' rest p
    ∙ ap (λ o. or_else o (find p rest)) (find-insert_new path meta map (find path map) p refl)
    ∙ or_else_assoc (find p map) (if bytes_eq path p then some meta else none) (find p rest)
    ∙ ap (or_else (find p map)) (pull (bytes_eq path p) meta (find p rest))

abbrev pub IsPresent : Bytes → MetadataMap → Type 0
IsPresent p map = find p map ≢ none

pub In-IsPresent :
    (map : MetadataMap) (path : Bytes) (meta : FileMetadata)
    → In (path, meta) map
    → IsPresent path map
unfolding find
In-IsPresent [] path meta nowhere = absurd nowhere
In-IsPresent ((q, m) ∷ rest) path meta (inl same) =
    let e : bytes_eq q path ≡ true = (bytes_eq_iff q path).1 (ap (λ r. r.0) same) in rw e (λ n. cc)
In-IsPresent ((q, m) ∷ rest) path meta (inr there) = elim (Bool-cases (bytes_eq q path)) [
  | inl here ↦ rw here (λ n. cc)
  | inr off ↦ rw off (In-IsPresent rest path meta there)
]

pub find-In :
    (map : MetadataMap) (path : Bytes) (meta : FileMetadata)
    → find path map ≡ some meta
    → In (path, meta) map
unfolding find
find-In [] path meta e = absurd (none≢some e)
find-In ((q, m) ∷ rest) path meta e = elim (Bool-cases (bytes_eq q path)) [
  | inl here ↦
      let k : m ≡ meta = unwrap (sym (ap (λ b. if b then some m else find path rest) here) ∙ e) in
      let l : q ≡ path = (bytes_eq_iff q path).0 here in inl cc
  | inr off ↦
      inr (find-In rest path meta (sym (ap (λ b. if b then some m else find path rest) off) ∙ e))
]

-- Entries that all satisfy a predicate still do after one is set or others are inserted.
pub set_entry-All :
    (P : Entry → Type 0) (path : Bytes) (meta : FileMetadata) (map : MetadataMap)
    → P (path, meta)
    → All P map
    → All P (set_entry path meta map)
unfolding set_entry
set_entry-All P path meta [] h k = (h, tt)
set_entry-All P path meta ((q, m) ∷ rest) h k = elim (Bool-cases (bytes_eq q path)) [
  | inl here ↦
      let l : path ≡ q = sym ((bytes_eq_iff q path).0 here) in
      rw here (subst (λ r. P (r, meta)) l h, k.1)
  | inr off ↦ rw off (k.0, set_entry-All P path meta rest h k.1)
]

insert_new-All :
    (P : Entry → Type 0) (path : Bytes) (meta : FileMetadata) (map : MetadataMap)
    (o : Option FileMetadata)
    → P (path, meta)
    → All P map
    → All P (insert_new path meta map o)
insert_new-All P path meta map none h k = All-append P map ((path, meta) ∷ []) k (h, tt)
insert_new-All P path meta map (some old) h k = k

pub insert_entries-All :
    (P : Entry → Type 0) (map sub : MetadataMap)
    → All P map
    → All P sub
    → All P (insert_entries map sub)
unfolding insert_entries
insert_entries-All P map [] h k = h
insert_entries-All P map ((path, meta) ∷ rest) h k =
    insert_entries-All P (insert_new path meta map (find path map)) rest
      (insert_new-All P path meta map (find path map) k.0 h) k.1
