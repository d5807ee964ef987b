-- ===== src/Toolchains/Reading.antt =====
-- A configuration of the expected form is read to its settings.
use wali_lib.Base.{
  Str, lit, none, some, List, [], ◌∷◌, ◌++◌, map, str_eq, nat_eq, ok, traverse, ◌≡◌, ◌⊎◌, inl, inr,
  refl, ap, map-append,
}
use wali_lib.Text.{join}
use wali_lib.Toml.{Value, text, array, table, Values, empty, item, Table, end, get, elements}
use wali_lib.Toolchains.Config.{
  Outside, Flags, Settings, index, get_or, iterate, as_list, as_text, sh_join, target_novendor,
  split_triple, str_of, ldflags, ldflags_of, warning_flag, read_flags, read_settings,
}
use wali_lib.Toolchains.Triple.{Parts, AreParts, full, short, target_novendor_iff}

-- A list of texts.
abbrev pub array_of : List Str → Values
array_of [] = empty
array_of (s ∷ ss) = item (text s) (array_of ss)

-- The list of texts at a key; a missing list counts as an empty one.
abbrev pub IsList : Str → Table → List Str → Type 0
IsList k t ss = (get k t ≡ some (array (array_of ss))) ⊎ ((get k t ≡ none) × (ss ≡ []))

abbrev pub IsLink : Table → Table → Type 0
IsLink flags link =
    (get (lit "link") flags ≡ some (table link)) ⊎ ((get (lit "link") flags ≡ none) × (link ≡ end))

-- What a configuration says.
pub record Content : Type 0 where
  pub triple : Parts
  pub root : Str
  pub llvm : Str
  pub sysroot : Str
  pub libcxx : Str
  pub warning_cflags : List Str
  pub wasm_features : List Str
  pub extra_cflags : List Str
  pub link : Table

-- A configuration with that content: the order of its keys and what else it has do not matter.
pub record IsConfig (cfg : Table) (c : Content) : Type 0 where
  pub target_table : Table
  pub target_at : get (lit "target") cfg ≡ some (table target_table)
  pub triple_at : get (lit "triple") target_table ≡ some (text (full c.triple))
  pub triple_parts : AreParts c.triple
  pub paths : Table
  pub paths_at : get (lit "build_dirs") cfg ≡ some (table paths)
  pub root_at : get (lit "root") paths ≡ some (text c.root)
  pub llvm_at : get (lit "llvm") paths ≡ some (text c.llvm)
  pub sysroot_at : get (lit "sysroot") paths ≡ some (text c.sysroot)
  pub libcxx_at : get (lit "libcxx") paths ≡ some (text c.libcxx)
  pub flags : Table
  pub flags_at : get (lit "flags") cfg ≡ some (table flags)
  pub warnings_at : IsList (lit "warning_cflags") flags c.warning_cflags
  pub wasm_at : IsList (lit "wasm_features") flags c.wasm_features
  pub extra_at : IsList (lit "extra_cflags") flags c.extra_cflags
  pub link_at : IsLink flags c.link

index-get : (t : Table) (k : Str) (v : Value) → get k t ≡ some v → index (table t) k ≡ ok v
unfolding index
index-get t k v h = rw (index, h) refl

get_or-IsList :
    (t : Table) (k : Str) (ss : List Str)
    → IsList k t ss
    → get_or (table t) k (array empty) ≡ ok (array (array_of ss))
unfolding get_or
get_or-IsList t k ss (inl h) = rw (get_or, h) refl
get_or-IsList t k ss (inr (h, e)) = rw (get_or, h, e) refl

get_or-IsLink :
    (t link : Table) → IsLink t link → get_or (table t) (lit "link") (table end) ≡ ok (table link)
unfolding get_or
get_or-IsLink t link (inl h) = rw (get_or, h) refl
get_or-IsLink t link (inr (h, e)) = rw (get_or, h, e) refl

elements-array_of : (ss : List Str) → elements (array_of ss) ≡ map text ss
unfolding elements
elements-array_of [] = refl
elements-array_of (s ∷ ss) = ap (λ vs. text s ∷ vs) (elements-array_of ss)

traverse-as_text : (ss : List Str) → traverse as_text (map text ss) ≡ ok ss
unfolding traverse as_text
traverse-as_text [] = refl
traverse-as_text (s ∷ ss) = rw (traverse-as_text ss) refl

sh_join-texts : (ss : List Str) → sh_join (map text ss) ≡ ok (join (lit " ") ss)
unfolding sh_join
sh_join-texts ss = rw (traverse-as_text ss) refl

-- The flags of a target before they are formatted.
abbrev pub cflags_of : Content → List Str
cflags_of c = c.extra_cflags ++ (map (λ w. lit "-W" ++ w) c.warning_cflags ++ c.wasm_features)

module _ (outside : Outside) where
  map-warning_flag :
      (ss : List Str)
      → map (warning_flag outside) (map text ss) ≡ map text (map (λ w. lit "-W" ++ w) ss)
  unfolding warning_flag str_of
  map-warning_flag [] = refl
  map-warning_flag (s ∷ ss) = ap (λ vs. text (lit "-W" ++ s) ∷ vs) (map-warning_flag ss)

  list_of_flags :
      (c : Content)
      → elements (array_of c.extra_cflags)
          ++ (map (warning_flag outside) (elements (array_of c.warning_cflags))
              ++ elements (array_of c.wasm_features))
        ≡ map text (cflags_of c)
  list_of_flags c =
      rw
        (
          elements-array_of c.extra_cflags,
          elements-array_of c.warning_cflags,
          elements-array_of c.wasm_features,
          map-warning_flag c.warning_cflags,
          map-append text c.extra_cflags
              (map (λ w. lit "-W" ++ w) c.warning_cflags ++ c.wasm_features),
          map-append text (map (λ w. lit "-W" ++ w) c.warning_cflags) c.wasm_features,
        )
        refl

  -- The flags of a configuration before they are formatted.
  abbrev pub flags_of : Content → Flags
  flags_of c = record {
    common_cflags =
        join (lit " ")
          ((lit "--target=" ++ full c.triple) ∷ lit "--sysroot={SYSROOTVAR}" ∷ cflags_of c);
    common_cxxflags =
        join (lit " ")
          (lit "-stdlib=libc++" ∷ lit "{CFLAGSVAR}" ∷ lit "-I{LIBCXXVAR}/include/c++/v1" ∷ []);
    common_ldflags =
        join (lit " ")
          (lit "-L{SYSROOTVAR}/lib" ∷ lit "-L{LIBCXXVAR}/lib" ∷ ldflags outside c.link);
  }

  abbrev pub settings_of : Content → Settings
  settings_of c = record {
    target = full c.triple;
    target_novendor = short c.triple;
    build_dir = c.root;
    llvm_dir = c.llvm;
    sysroot = c.sysroot;
    libcxx = c.libcxx;
    flags = flags_of c;
  }

  read_flags-IsConfig :
      (cfg : Table) (c : Content) (h : IsConfig cfg c)
      → read_flags outside (full c.triple) (table h.flags) ≡ ok (flags_of c)
  unfolding read_flags iterate as_list ldflags_of
  read_flags-IsConfig cfg c h =
      rw
        (
          get_or-IsList h.flags (lit "warning_cflags") c.warning_cflags h.warnings_at,
          get_or-IsList h.flags (lit "wasm_features") c.wasm_features h.wasm_at,
          get_or-IsList h.flags (lit "extra_cflags") c.extra_cflags h.extra_at,
          get_or-IsLink h.flags c.link h.link_at,
          list_of_flags c,
          sh_join-texts
              ((lit "--target=" ++ full c.triple) ∷ lit "--sysroot={SYSROOTVAR}" ∷ cflags_of c),
        )
        refl

  target_novendor-parts : (t : Parts) → AreParts t → target_novendor (full t) ≡ ok (short t)
  target_novendor-parts t h = (target_novendor_iff (full t) (short t)).1 (t, h, refl, refl)

  -- A configuration of the expected form is read to its settings, with the flags in the order of
  -- their lists.
  pub read_settings-IsConfig :
      (cfg : Table) (c : Content) → IsConfig cfg c → read_settings outside cfg ≡ ok (settings_of c)
  unfolding read_settings split_triple str_of
  read_settings-IsConfig cfg c h =
      rw
        (
          index-get cfg (lit "target") (table h.target_table) h.target_at,
          index-get h.target_table (lit "triple") (text (full c.triple)) h.triple_at,
          target_novendor-parts c.triple h.triple_parts,
          index-get cfg (lit "build_dirs") (table h.paths) h.paths_at,
          index-get h.paths (lit "root") (text c.root) h.root_at,
          index-get h.paths (lit "llvm") (text c.llvm) h.llvm_at,
          index-get h.paths (lit "sysroot") (text c.sysroot) h.sysroot_at,
          index-get h.paths (lit "libcxx") (text c.libcxx) h.libcxx_at,
          index-get cfg (lit "flags") (table h.flags) h.flags_at,
          read_flags-IsConfig cfg c h,
        )
        refl
