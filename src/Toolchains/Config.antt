-- ===== src/Toolchains/Config.antt =====
-- What toolchains/gen_toolchains.py reads from wali.toml: the triple, the directories, the flags.
use wali_lib.Base.{
  Str, lit, true, false, Option, none, some, List, [], ◌∷◌, ◌++◌, map, Result, ok, err, system_exit,
  key_error, type_error, attribute_error, traverse, ◌>>=◌,
}
use wali_lib.Base.Dict.{Dict}
use wali_lib.Text.{join, split}
use wali_lib.Toml.{
  Value, text, flag, other, array, table, Values, empty, Table, end, entry, get, elements,
}

-- What the script takes from outside: `tomllib.load` (`none` for a `TOMLDecodeError`, which is a
-- `ValueError`), `str` of a list and of a dict, `str.format` from a field on that is more than a
-- name, `/` of pathlib, and the directory of the script.
pub record Outside : Type 0 where
  pub parse : Str → Option Table
  pub str_of_list : Values → Str
  pub str_of_dict : Table → Str
  pub format_rest : Dict Str Str → Str → Result Str
  pub child : Str → Str → Str
  pub filepath : Str

-- `v[k]`
unfoldable pub index : Value → Str → Result Value
index (table t) k = elim (get k t) [ none ↦ err key_error | some v ↦ ok v ]
index (text _) k = err type_error
index (flag _) k = err type_error
index (other _) k = err type_error
index (array _) k = err type_error

-- `v.get(k, default)`
unfoldable pub get_or : Value → Str → Value → Result Value
get_or (table t) k default = ok (elim (get k t) [ none ↦ default | some v ↦ v ])
get_or (text _) k default = err attribute_error
get_or (flag _) k default = err attribute_error
get_or (other _) k default = err attribute_error
get_or (array _) k default = err attribute_error

-- The keys of a dict, as values.
unfoldable pub keys_of : Table → List Value
keys_of end = []
keys_of (entry k v t) = text k ∷ keys_of t

-- What `for x in v` goes through: the characters of a text, the elements of a list, or keys.
unfoldable pub iterate : Value → Result (List Value)
iterate (text s) = ok (map (λ c. text (c ∷ [])) s)
iterate (array vs) = ok (elements vs)
iterate (table t) = ok (keys_of t)
iterate (flag _) = err type_error
iterate (other _) = err type_error

-- What can be added to a list.
unfoldable pub as_list : Value → Result (List Value)
as_list (array vs) = ok (elements vs)
as_list (text _) = err type_error
as_list (flag _) = err type_error
as_list (other _) = err type_error
as_list (table _) = err type_error

-- What can be joined to a text.
unfoldable pub as_text : Value → Result Str
as_text (text s) = ok s
as_text (flag _) = err type_error
as_text (other _) = err type_error
as_text (array _) = err type_error
as_text (table _) = err type_error

unfoldable pub sh_join : List Value → Result Str
sh_join xs = do parts ← traverse as_text xs; ok (join (lit " ") parts)

-- `target_novendor`: the triple without its vendor, or `sys.exit(1)` where it has not four parts.
unfoldable pub without_vendor : List Str → Result Str
without_vendor (arch ∷ vendor ∷ os ∷ env ∷ []) = ok (join (lit "-") (arch ∷ os ∷ env ∷ []))
without_vendor _ = err (system_exit 1)

unfoldable pub target_novendor : Str → Result Str
target_novendor target = without_vendor (split b'-' target)

-- Only a text has the method `split`.
unfoldable pub split_triple : Value → Result (Str × Str)
split_triple (text target) = do novendor ← target_novendor target; ok (target, novendor)
split_triple (flag _) = err attribute_error
split_triple (other _) = err attribute_error
split_triple (array _) = err attribute_error
split_triple (table _) = err attribute_error

-- The three lists of flags, before they are formatted.
pub record Flags : Type 0 where
  pub common_cflags : Str
  pub common_cxxflags : Str
  pub common_ldflags : Str

-- What the three files are made of.
pub record Settings : Type 0 where
  pub target : Str
  pub target_novendor : Str
  pub build_dir : Str
  pub llvm_dir : Str
  pub sysroot : Str
  pub libcxx : Str
  pub flags : Flags

module _ (outside : Outside) where
  -- `str(v)`
  unfoldable pub str_of : Value → Str
  str_of (text s) = s
  str_of (flag true) = lit "True"
  str_of (flag false) = lit "False"
  str_of (other s) = s
  str_of (array vs) = outside.str_of_list vs
  str_of (table t) = outside.str_of_dict t

  unfoldable pub link_flag : Str → Value → Str
  link_flag key x = lit "-Wl,--" ++ (key ++ (lit "=" ++ str_of x))

  -- The linker flags of one entry.
  unfoldable pub link_flags : Str → Value → List Str
  link_flags key (flag true) = (lit "-Wl,--" ++ key) ∷ []
  link_flags key (flag false) = []
  link_flags key (array vs) = map (link_flag key) (elements vs)
  link_flags key (text s) = link_flag key (text s) ∷ []
  link_flags key (other s) = link_flag key (other s) ∷ []
  link_flags key (table t) = link_flag key (table t) ∷ []

  unfoldable pub ldflags : Table → List Str
  ldflags end = []
  ldflags (entry key val link) = link_flags key val ++ ldflags link

  -- `flags.get("link", {}).items()` and the loop over it.
  unfoldable pub ldflags_of : Value → Result (List Str)
  ldflags_of (table link) = ok (ldflags link)
  ldflags_of (text _) = err attribute_error
  ldflags_of (flag _) = err attribute_error
  ldflags_of (other _) = err attribute_error
  ldflags_of (array _) = err attribute_error

  -- `f"-W{x}"`
  unfoldable pub warning_flag : Value → Value
  warning_flag x = text (lit "-W" ++ str_of x)

  unfoldable pub read_flags : Str → Value → Result Flags
  read_flags target flags = do
    warnings ← get_or flags (lit "warning_cflags") (array empty)
    warning_values ← iterate warnings
    wasm_features ← get_or flags (lit "wasm_features") (array empty)
    extra_cflags ← get_or flags (lit "extra_cflags") (array empty)
    link ← get_or flags (lit "link") (table end)
    link_flags ← ldflags_of link
    extra_list ← as_list extra_cflags
    wasm_list ← as_list wasm_features
    cflags ← sh_join (
        text (lit "--target=" ++ target)
        ∷ text (lit "--sysroot={SYSROOTVAR}")
        ∷ (extra_list ++ (map warning_flag warning_values ++ wasm_list)))
    ok (record {
      common_cflags = cflags;
      common_cxxflags =
          join (lit " ")
            (lit "-stdlib=libc++" ∷ lit "{CFLAGSVAR}" ∷ lit "-I{LIBCXXVAR}/include/c++/v1" ∷ []);
      common_ldflags =
          join (lit " ") (lit "-L{SYSROOTVAR}/lib" ∷ lit "-L{LIBCXXVAR}/lib" ∷ link_flags);
    })

  unfoldable pub read_settings : Table → Result Settings
  read_settings cfg = do
    target_table ← index (table cfg) (lit "target")
    triple ← index target_table (lit "triple")
    (target, novendor) ← split_triple triple
    paths ← index (table cfg) (lit "build_dirs")
    build_dir ← index paths (lit "root")
    llvm_dir ← index paths (lit "llvm")
    sysroot ← index paths (lit "sysroot")
    libcxx ← index paths (lit "libcxx")
    flags ← index (table cfg) (lit "flags")
    lists ← read_flags target flags
    ok (record {
      target = target;
      target_novendor = novendor;
      build_dir = str_of build_dir;
      llvm_dir = str_of llvm_dir;
      sysroot = str_of sysroot;
      libcxx = str_of libcxx;
      flags = lists;
    })
