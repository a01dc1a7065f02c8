-- ===== src/Riscof/Sisrv/Command.antt =====
-- The compiler's command of a test in riscof_sisrv.py, as text.
use sisrv_platform.Prelude.{
  ◌≡◌, refl, subst, List, [], ◌∷◌, ◌++◌, append-nil, Text, codes, ok, map, All, lower, arith,
}
use sisrv_platform.Riscof.Format.{format}
use sisrv_platform.Riscof.Format.Laws.{IsPlain}
use sisrv_platform.Riscof.Format.Pieces.{
  Piece, said, field, template_of, filled, FitsPiece, format_lem, IsPlain-of_all,
}
use sisrv_platform.Riscof.Sisrv.{Plugin, compile_tail, initialise}
use sisrv_platform.Riscof.Sisrv.Run.{Entry, elf_of, macro_flags, compile_args, compile_command}

module _ (plugin : Plugin) (suite work_dir archtest_env : Text) where
  -- The text of the compiler's command.
  unfoldable pub compile_text : Entry → Text
  compile_text test =
      plugin.toolchain_prefix
      ++ (codes "gcc -march="
          ++ (map lower test.isa
              ++ (codes
                    " -mabi=ilp32 -Wl,-melf32lriscv -static -mcmodel=medany -fvisibility=hidden -nostdlib -nostartfiles -g -T "
                  ++ (plugin.pluginpath
                      ++ (codes "/env/link.ld -I "
                          ++ (plugin.pluginpath
                              ++ (codes "/env/ -I "
                                  ++ (archtest_env
                                      ++ (codes " "
                                          ++ (test.test_path
                                              ++ (codes " -o "
                                                  ++ (elf_of test
                                                      ++ (codes " " ++ macro_flags test)))))))))))))

  abbrev compile_pieces : List Piece
  compile_pieces =
      said plugin.toolchain_prefix
      ∷ said (codes "gcc -march=")
      ∷ field 0
      ∷ said (
          codes
            " -mabi=ilp32 -Wl,-melf32lriscv -static -mcmodel=medany -fvisibility=hidden -nostdlib -nostartfiles -g -T ")
      ∷ said plugin.pluginpath
      ∷ said (codes "/env/link.ld -I ")
      ∷ said plugin.pluginpath
      ∷ said (codes "/env/ -I ")
      ∷ said archtest_env
      ∷ said (codes " ")
      ∷ field 1
      ∷ said (codes " -o ")
      ∷ field 2
      ∷ said (codes " ")
      ∷ field 3
      ∷ []

  -- Where the prefix of the tools and the two paths have no brace, the compiler's command of a test is
  -- the template with the architecture in lower case, the source, the ELF file and the macros in it.
  pub compile_command-text :
      (python name : Text) (test : Entry)
      → IsPlain plugin.toolchain_prefix
      → IsPlain plugin.pluginpath
      → IsPlain archtest_env
      → compile_command python name (initialise plugin suite work_dir archtest_env) test
        ≡ ok (compile_text test)
  unfolding compile_command compile_text initialise compile_tail
  compile_command-text python name test p q r =
      let whole : template_of compile_pieces
          ≡ plugin.toolchain_prefix ++ compile_tail plugin.pluginpath archtest_env =
        refl in
      let fits : All (FitsPiece (compile_args test)) compile_pieces = (
        p,
        (
          IsPlain-of_all (codes "gcc -march=") refl,
          (
            (omega arith, refl),
            (
              IsPlain-of_all
                  (codes
                    " -mabi=ilp32 -Wl,-melf32lriscv -static -mcmodel=medany -fvisibility=hidden -nostdlib -nostartfiles -g -T ")
                  refl,
              (
                q,
                (
                  IsPlain-of_all (codes "/env/link.ld -I ") refl,
                  (
                    q,
                    (
                      IsPlain-of_all (codes "/env/ -I ") refl,
                      (
                        r,
                        (
                          IsPlain-of_all (codes " ") refl,
                          (
                            (omega arith, refl),
                            (
                              IsPlain-of_all (codes " -o ") refl,
                              (
                                (omega arith, refl),
                                (IsPlain-of_all (codes " ") refl, ((omega arith, refl), tt)),
                              ),
                            ),
                          ),
                        ),
                      ),
                    ),
                  ),
                ),
              ),
            ),
          ),
        ),
      ) in
      let done : format (plugin.toolchain_prefix ++ compile_tail plugin.pluginpath archtest_env)
            (compile_args test)
          ≡ ok (filled (compile_args test) compile_pieces) =
        subst
          (λ (t : Text).
            format t (compile_args test) ≡ ok (filled (compile_args test) compile_pieces))
          whole (format_lem (compile_args test) compile_pieces fits) in
      rw (compile_command, done) (rw append-nil refl)
