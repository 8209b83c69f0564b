-- ===== src/Tests/ReadProtect.antt =====
-- Commands of a shell, and reads of files.
use headroom_go.Common.{
  ◌≡◌, refl, true, false, codes, arith, text_eq, strip_prefix, contains, is_in,
}
use headroom_go.Common.Space.{fields}
use headroom_go.Common.Lines.{join}
use headroom_go.Transform.{build_output}
use headroom_go.Detect.ReadProtect.{read_command, is_read_command, read_output_is_protected}
use headroom_go.Detect.ReadProtect.Fuel.{read_command_fuel}

nested : is_read_command (codes "cd /x && sudo timeout 30 bash -lc 'cat a.go'") ≡ true
unfolding is_read_command read_command strip_prefix text_eq contains is_in join fields
nested = refl

writes_file : is_read_command (codes "cat > a.go") ≡ false
unfolding is_read_command read_command strip_prefix text_eq contains is_in join fields
writes_file = refl

lockfile : is_read_command (codes "cat ./GO.sum") ≡ false
unfolding is_read_command read_command strip_prefix text_eq contains is_in join fields
lockfile = refl

go_source : read_output_is_protected (codes "Read") (codes "") (codes "/a/b.GO") build_output ≡ true
unfolding read_output_is_protected is_read_command strip_prefix text_eq contains is_in
go_source = refl

read_command_fuel_example :
    read_command 50 (codes "bash -c 'cat a.go'") ≡ is_read_command (codes "bash -c 'cat a.go'")
read_command_fuel_example = read_command_fuel 50 (codes "bash -c 'cat a.go'") (omega arith)
