-- ===== src/Toolchains/Templates.antt =====
-- The three files that toolchains/gen_toolchains.py makes, line by line.
use wali_lib.Base.{Str, lit, List, [], ◌∷◌, ◌++◌, map, Result, ok, ◌>>=◌}
use wali_lib.Text.{join}
use wali_lib.Text.Format.{format}
use wali_lib.Text.Dedent.{dedent}
use wali_lib.Toolchains.Config.{Outside, Settings}

abbrev pub cc : Str
cc = lit "clang"

abbrev pub cxx : Str
cxx = lit "clang++"

abbrev pub ld : Str
ld = lit "wasm-ld"

abbrev pub ar : Str
ar = lit "llvm-ar"

abbrev pub ranlib : Str
ranlib = lit "llvm-ranlib"

abbrev pub llvm_config : Str
llvm_config = lit "llvm-config"

abbrev pub root_dir_rel : Str
root_dir_rel = lit ".."

-- A line of a template, by its indent in the source.
unfoldable pub indented : Str → Str
indented [] = []
indented (c ∷ l) = lit "        " ++ c ∷ l

-- The text between the quotes of a template.
unfoldable pub block : List Str → Str
block lines = join (lit "\n") (map indented lines ++ lit "    " ∷ [])

unfoldable pub makefile_lines : Settings → Str → Str → Str → List Str
makefile_lines s cflags cxxflags ldflags =
    lit "# Auto-generated by gen_configs.py — Include this file in other makefiles"
    ∷ lit "mkfile_path := $(abspath $(lastword $(MAKEFILE_LIST)))"
    ∷ []
    ∷ (lit "WALI_ROOT_DIR  := $(patsubst %/,%, $(dir $(mkfile_path)))/" ++ root_dir_rel)
    ∷ (lit "WALI_BUILD_DIR := $(WALI_ROOT_DIR)/" ++ s.build_dir)
    ∷ []
    ∷ lit "# ---- Build Artifact Directories ---- #"
    ∷ (lit "WALI_LLVM_DIR    := $(WALI_BUILD_DIR)/" ++ s.llvm_dir)
    ∷ (lit "WALI_SYSROOT_DIR := $(WALI_BUILD_DIR)/" ++ s.sysroot)
    ∷ (lit "WALI_LIBCXX_DIR  := $(WALI_BUILD_DIR)/" ++ s.libcxx)
    ∷ []
    ∷ lit "# ---- Compiler/Linker Toolchain Binaries ---- #"
    ∷ lit "WALI_LLVM_BIN_DIR := $(WALI_LLVM_DIR)/bin"
    ∷ (lit "WALI_CC     := $(WALI_LLVM_BIN_DIR)/" ++ cc)
    ∷ (lit "WALI_CXX    := $(WALI_LLVM_BIN_DIR)/" ++ cxx)
    ∷ (lit "WALI_LD     := $(WALI_LLVM_BIN_DIR)/" ++ ld)
    ∷ (lit "WALI_AR     := $(WALI_LLVM_BIN_DIR)/" ++ ar)
    ∷ (lit "WALI_RANLIB := $(WALI_LLVM_BIN_DIR)/" ++ ranlib)
    ∷ []
    ∷ (lit "WALI_COMMON_CFLAGS   := " ++ cflags)
    ∷ (lit "WALI_COMMON_CXXFLAGS := " ++ cxxflags)
    ∷ (lit "WALI_COMMON_LDFLAGS  := " ++ ldflags)
    ∷ (lit "WALI_TARGET          := " ++ s.target)
    ∷ (lit "WALI_TARGET_NOVENDOR := " ++ s.target_novendor)
    ∷ []
    ∷ lit "# --- Libclang RT --- #"
    ∷ (lit "WALI_LLVM_MAJOR_VERSION = $(shell $(WALI_LLVM_BIN_DIR)/"
        ++ (llvm_config ++ lit " --version | cut -d '.' -f 1)"))
    ∷ (lit "WALI_LIBCLANG_RT_LIB = $(WALI_LLVM_DIR)/lib/clang/$(WALI_LLVM_MAJOR_VERSION)/lib/"
        ++ (s.target ++ lit "/libclang_rt.builtins.a"))
    ∷ []
    ∷ lit "#.PHONY: print-vars"
    ∷ lit "#print-vars:"
    ∷ lit "#\t@echo WALI_ROOT_DIR=$(WALI_ROOT_DIR)"
    ∷ lit "#\t@echo WALI_CC=$(WALI_CC)"
    ∷ lit "#\t@echo WALI_CFLAGS=$(WALI_COMMON_CFLAGS)"
    ∷ lit "#\t@echo WALI_CXXFLAGS=$(WALI_COMMON_CXXFLAGS)"
    ∷ lit "#\t@echo WALI_LDFLAGS=$(WALI_COMMON_LDFLAGS)"
    ∷ []

unfoldable pub bash_lines : Settings → Str → Str → Str → List Str
bash_lines s cflags cxxflags ldflags =
    lit "#!/usr/bin/env bash"
    ∷ lit "# Auto-generated by gen_configs.py — source this file"
    ∷ lit "set -euo pipefail"
    ∷ []
    ∷ (lit "export WALI_ROOT_DIR=$(dirname $(realpath ${BASH_SOURCE}))/" ++ root_dir_rel)
    ∷ (lit "export WALI_BUILD_DIR=$WALI_ROOT_DIR/" ++ s.build_dir)
    ∷ []
    ∷ lit "# Build Artifact Directories"
    ∷ (lit "export WALI_LLVM_DIR=$WALI_BUILD_DIR/" ++ s.llvm_dir)
    ∷ (lit "export WALI_SYSROOT_DIR=$WALI_BUILD_DIR/" ++ s.sysroot)
    ∷ (lit "export WALI_LIBCXX_DIR=$WALI_BUILD_DIR/" ++ s.libcxx)
    ∷ []
    ∷ lit "# LLVM Tools"
    ∷ lit "export WALI_LLVM_BIN_DIR=$WALI_LLVM_DIR/bin"
    ∷ (lit "export WALI_CC=$WALI_LLVM_BIN_DIR/" ++ cc)
    ∷ (lit "export WALI_CXX=$WALI_LLVM_BIN_DIR/" ++ cxx)
    ∷ (lit "export WALI_LD=$WALI_LLVM_BIN_DIR/" ++ ld)
    ∷ (lit "export WALI_AR=$WALI_LLVM_BIN_DIR/" ++ ar)
    ∷ (lit "export WALI_RANLIB=$WALI_LLVM_BIN_DIR/" ++ ranlib)
    ∷ []
    ∷ lit "# Compile/Link Flags"
    ∷ (lit "export WALI_COMMON_CFLAGS=\"" ++ (cflags ++ lit "\""))
    ∷ (lit "export WALI_COMMON_CXXFLAGS=\"" ++ (cxxflags ++ lit "\""))
    ∷ (lit "export WALI_COMMON_LDFLAGS=\"" ++ (ldflags ++ lit "\""))
    ∷ (lit "export WALI_TARGET=" ++ s.target)
    ∷ (lit "export WALI_TARGET_NOVENDOR=" ++ s.target_novendor)
    ∷ []
    ∷ lit "# Libclang RT: Uncomment this only after llvm is already built, if needed."
    ∷ (lit "# export WALI_LLVM_MAJOR_VERSION=$($WALI_LLVM_BIN_DIR/"
        ++ (llvm_config ++ lit " --version | cut -d '.' -f 1)"))
    ∷ (lit "# export WALI_LIBCLANG_RT_LIB=$WALI_LLVM_DIR/lib/clang/$WALI_LLVM_MAJOR_VERSION/lib/"
        ++ (s.target ++ lit "/libclang_rt.builtins.a"))
    ∷ []

unfoldable pub cmake_lines : Settings → Str → Str → Str → List Str
cmake_lines s cflags cxxflags ldflags =
    lit "# Auto-generated by gen_configs.py — use with -DCMAKE_TOOLCHAIN_FILE=wali.cmake"
    ∷ lit "set (CMAKE_SYSTEM_NAME Linux)"
    ∷ []
    ∷ lit "# Resolve project root relative to this file"
    ∷ lit "get_filename_component(WALI_ROOT_DIR \"${CMAKE_CURRENT_LIST_DIR}\" ABSOLUTE)"
    ∷ (lit "set (WALI_BUILD_DIR  ${WALI_ROOT_DIR}/" ++ (s.build_dir ++ lit ")"))
    ∷ (lit "set (WALI_LLVM_BIN_DIR ${WALI_BUILD_DIR}/" ++ (s.llvm_dir ++ lit "/bin)"))
    ∷ (lit "set (WALI_LIBCXX_DIR ${WALI_BUILD_DIR}/" ++ (s.libcxx ++ lit ")"))
    ∷ []
    ∷ lit "# Sysroot"
    ∷ (lit "set (CMAKE_SYSROOT ${WALI_BUILD_DIR}/" ++ (s.sysroot ++ lit ")"))
    ∷ []
    ∷ lit "# Compiler Toolchain"
    ∷ (lit "set (CMAKE_C_COMPILER   ${WALI_LLVM_BIN_DIR}/" ++ (cc ++ lit ")"))
    ∷ (lit "set (CMAKE_CXX_COMPILER ${WALI_LLVM_BIN_DIR}/" ++ (cxx ++ lit ")"))
    ∷ (lit "set (CMAKE_AR           ${WALI_LLVM_BIN_DIR}/" ++ (ar ++ lit ")"))
    ∷ (lit "set (CMAKE_RANLIB       ${WALI_LLVM_BIN_DIR}/" ++ (ranlib ++ lit ")"))
    ∷ (lit "set (CMAKE_LINKER       ${WALI_LLVM_BIN_DIR}/" ++ (ld ++ lit ")"))
    ∷ []
    ∷ lit "# Flags"
    ∷ (lit "set (CMAKE_C_FLAGS \"" ++ (cflags ++ lit "\")"))
    ∷ (lit "set (CMAKE_CXX_FLAGS \"" ++ (cxxflags ++ lit "\")"))
    ∷ (lit "set (CMAKE_EXE_LINKER_FLAGS \"" ++ (ldflags ++ lit "\")"))
    ∷ []

module _ (outside : Outside) where
  unfoldable pub makefile : Settings → Result Str
  makefile s = do
    cflags ←
        format outside.format_rest ((lit "SYSROOTVAR", lit "$(WALI_SYSROOT_DIR)") ∷ [])
          s.flags.common_cflags
    cxxflags ←
        format outside.format_rest
          ((lit "CFLAGSVAR", lit "$(WALI_COMMON_CFLAGS)")
            ∷ (lit "LIBCXXVAR", lit "$(WALI_LIBCXX_DIR)")
            ∷ [])
          s.flags.common_cxxflags
    ldflags ←
        format outside.format_rest
          ((lit "SYSROOTVAR", lit "$(WALI_SYSROOT_DIR)")
            ∷ (lit "LIBCXXVAR", lit "$(WALI_LIBCXX_DIR)")
            ∷ [])
          s.flags.common_ldflags
    ok (dedent (block (makefile_lines s cflags cxxflags ldflags)))

  unfoldable pub bash : Settings → Result Str
  bash s = do
    cflags ←
        format outside.format_rest ((lit "SYSROOTVAR", lit "${WALI_SYSROOT_DIR}") ∷ [])
          s.flags.common_cflags
    cxxflags ←
        format outside.format_rest
          ((lit "CFLAGSVAR", lit "${WALI_COMMON_CFLAGS}")
            ∷ (lit "LIBCXXVAR", lit "${WALI_LIBCXX_DIR}")
            ∷ [])
          s.flags.common_cxxflags
    ldflags ←
        format outside.format_rest
          ((lit "SYSROOTVAR", lit "${WALI_SYSROOT_DIR}")
            ∷ (lit "LIBCXXVAR", lit "${WALI_LIBCXX_DIR}")
            ∷ [])
          s.flags.common_ldflags
    ok (dedent (block (bash_lines s cflags cxxflags ldflags)))

  unfoldable pub cmake : Settings → Result Str
  cmake s = do
    cflags ←
        format outside.format_rest ((lit "SYSROOTVAR", lit "${CMAKE_SYSROOT}") ∷ [])
          s.flags.common_cflags
    cxxflags ←
        format outside.format_rest
          ((lit "CFLAGSVAR", lit "${CMAKE_C_FLAGS}")
            ∷ (lit "LIBCXXVAR", lit "${WALI_LIBCXX_DIR}")
            ∷ [])
          s.flags.common_cxxflags
    ldflags ←
        format outside.format_rest
          ((lit "SYSROOTVAR", lit "${CMAKE_SYSROOT}")
            ∷ (lit "LIBCXXVAR", lit "${WALI_LIBCXX_DIR}")
            ∷ [])
          s.flags.common_ldflags
    ok (dedent (block (cmake_lines s cflags cxxflags ldflags)))
