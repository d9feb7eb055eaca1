-- ===== src/Primitives/Strings/Library.antt =====
-- boofuzz/primitives/string.py: the constants of String.
use boofuzz.Base.{ℕ, List, [], ◌∷◌, ◌++◌, times}
use boofuzz.Base.Int.{ℤ, pos, negsuc}
use boofuzz.Base.Text.{Text, codes}

unfoldable pub fuzz_library : List Text
fuzz_library =
    (codes "!@#$%%^#$%#$@#$%$$@#$%^^**(()")
    ∷ []
    ∷ (codes "$(reboot)")
    ∷ (codes "$;reboot")
    ∷ (codes "%00")
    ∷ (codes "%00/")
    ∷ (codes "%01%02%03%04%0a%0d%0aADSF")
    ∷ (codes "%01%02%03@%04%0a%0d%0aADSF")
    ∷ (codes "%0a reboot %0a")
    ∷ (codes "%0Areboot")
    ∷ (codes "%0Areboot%0A")
    ∷ (codes "%0DCMD=$'reboot';$CMD")
    ∷ (codes "%0DCMD=$\"reboot\";$CMD")
    ∷ (codes "%0Dreboot")
    ∷ (codes "%0Dreboot%0D")
    ∷ (codes "%þð%\0ÿ")
    ∷ (times 20 (codes "%þð%\u{1}ÿ"))
    ∷ (times 100 (codes "%n"))
    ∷ (times 500 (codes "%n"))
    ∷ (times 100 (codes "%s"))
    ∷ (times 500 (codes "%s"))
    ∷ (codes "%u0000")
    ∷ (codes "& reboot &")
    ∷ (codes "& reboot")
    ∷ (codes "&&CMD=$'reboot';$CMD")
    ∷ (codes "&&CMD=$\"reboot\";$CMD")
    ∷ (codes "&&reboot")
    ∷ (codes "&&reboot&&")
    ∷ (codes "&CMD=$'reboot';$CMD")
    ∷ (codes "&CMD=$\"reboot\";$CMD")
    ∷ (codes "&reboot")
    ∷ (codes "&reboot&")
    ∷ (codes "'reboot'")
    ∷ (codes "..:..:..:..:..:..:..:..:..:..:..:..:..:")
    ∷ (codes "/%00/")
    ∷ (times 5000 (codes "/."))
    ∷ (((codes "/.../") ++ (times 5000 (codes "B"))) ++ (codes "\0\0"))
    ∷ (codes "/.../.../.../.../.../.../.../.../.../.../")
    ∷ (codes "/../../../../../../../../../../../../boot.ini")
    ∷ (codes "/../../../../../../../../../../../../etc/passwd")
    ∷ (((codes "/.:/") ++ (times 5000 (codes "A"))) ++ (codes "\0\0"))
    ∷ (times 5000 (codes "/\\"))
    ∷ (codes "/index.html|reboot|")
    ∷ (codes "; reboot")
    ∷ (codes ";CMD=$'reboot';$CMD")
    ∷ (codes ";CMD=$\"reboot\";$CMD")
    ∷ (codes ";id")
    ∷ (codes ";notepad;")
    ∷ (codes ";reboot")
    ∷ (codes ";reboot/n")
    ∷ (codes ";reboot;")
    ∷ (codes ";reboot|")
    ∷ (codes ";system('reboot')")
    ∷ (codes ";touch /tmp/SULLEY;")
    ∷ (codes ";|reboot|")
    ∷ (codes "<!--#exec cmd=\"reboot\"-->")
    ∷ (times 500 (codes "<>"))
    ∷ (codes "<reboot")
    ∷ (codes "<reboot%0A")
    ∷ (codes "<reboot%0D")
    ∷ (codes "<reboot;")
    ∷ (times 500 (codes "\"%n\""))
    ∷ (times 500 (codes "\"%s\""))
    ∷ (codes "\\\\*")
    ∷ (codes "\\\\?\\")
    ∷ (codes "\nnotepad\n")
    ∷ (codes "\nreboot\n")
    ∷ (times 100 (codes "\r\n"))
    ∷ (codes "\u{1}\u{2}\u{3}\u{4}")
    ∷ (times 10 (codes "Þ\u{ad}¾ï"))
    ∷ (times 100 (codes "Þ\u{ad}¾ï"))
    ∷ (times 1000 (codes "Þ\u{ad}¾ï"))
    ∷ (times 10000 (codes "Þ\u{ad}¾ï"))
    ∷ (codes "Þ\u{ad}¾ï")
    ∷ (codes "^CMD=$'reboot';$CMD")
    ∷ (codes "^CMD=$\"reboot\";$CMD")
    ∷ (codes "^reboot")
    ∷ (codes "`reboot`")
    ∷ (codes "a);reboot")
    ∷ (codes "a);reboot;")
    ∷ (codes "a);reboot|")
    ∷ (codes "a)|reboot")
    ∷ (codes "a)|reboot;")
    ∷ (codes "a;reboot")
    ∷ (codes "a;reboot;")
    ∷ (codes "a;reboot|")
    ∷ (codes "a|reboot")
    ∷ (codes "CMD=$'reboot';$CMD")
    ∷ (codes "CMD=$\"reboot\";$CMD")
    ∷ (codes "FAIL||CMD=$'reboot';$CMD")
    ∷ (codes "FAIL||CMD=$\"reboot\";$CMD")
    ∷ (codes "FAIL||reboot")
    ∷ (codes "id")
    ∷ (codes "id;")
    ∷ (codes "id|")
    ∷ (codes "reboot")
    ∷ (codes "reboot;")
    ∷ (codes "reboot|")
    ∷ (codes "| reboot")
    ∷ (codes "|CMD=$'reboot';$CMD")
    ∷ (codes "|CMD=$\"reboot\";$CMD")
    ∷ (codes "|nid")
    ∷ (codes "|notepad")
    ∷ (codes "|reboot")
    ∷ (codes "|reboot;")
    ∷ (codes "|reboot|")
    ∷ (codes "|touch /tmp/SULLEY")
    ∷ (codes "||reboot;")
    ∷ (codes "||reboot|")
    ∷ []

unfoldable pub long_string_seeds : List Text
long_string_seeds =
    (codes "C")
    ∷ (codes "1")
    ∷ (codes "<")
    ∷ (codes ">")
    ∷ (codes "'")
    ∷ (codes "\"")
    ∷ (codes "/")
    ∷ (codes "\\")
    ∷ (codes "?")
    ∷ (codes "=")
    ∷ (codes "a=")
    ∷ (codes "&")
    ∷ (codes ".")
    ∷ (codes ",")
    ∷ (codes "(")
    ∷ (codes ")")
    ∷ (codes "]")
    ∷ (codes "[")
    ∷ (codes "%")
    ∷ (codes "*")
    ∷ (codes "-")
    ∷ (codes "+")
    ∷ (codes "{")
    ∷ (codes "}")
    ∷ (codes "\u{14}")
    ∷ (codes "\0")
    ∷ (codes "þ")
    ∷ (codes "ÿ")
    ∷ []

unfoldable pub long_string_lengths : List ℕ
long_string_lengths = 8 ∷ 16 ∷ 32 ∷ 64 ∷ 128 ∷ 256 ∷ 512 ∷ 1024 ∷ 2048 ∷ 4096 ∷ 32768 ∷ 65535 ∷ []

unfoldable pub long_string_deltas : List ℤ
long_string_deltas = negsuc 1 ∷ negsuc 0 ∷ pos 0 ∷ pos 1 ∷ pos 2 ∷ []

unfoldable pub extra_long_string_lengths : List ℕ
extra_long_string_lengths = 99999 ∷ 100000 ∷ 500000 ∷ 1000000 ∷ []

abbrev pub variable_mutation_multipliers : List ℕ
variable_mutation_multipliers = 2 ∷ 10 ∷ 100 ∷ []
