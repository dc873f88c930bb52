-- ===== src/Text/Examples.antt =====
-- Runs of the text operations.
use demumumind_panel.Shared.{◌≡◌, refl, true}
use demumumind_panel.Text.{lower, strip, decimal, contains, partition, remove_prefix, ends_with}

lower_run : lower "HeLLo K" ≡ "hello k"
unfolding lower
lower_run = refl

strip_run : strip "  ab c \t" ≡ "ab c"
unfolding strip
strip_run = refl

decimal_run : decimal 4290 ≡ "4290"
unfolding decimal
decimal_run = refl

contains_run : contains "too many tokens" "token" ≡ true
unfolding contains
contains_run = refl

partition_run : partition 47 "a/b/c" ≡ ("a", true, "b/c")
unfolding partition
partition_run = refl

remove_prefix_run : remove_prefix "models/x" "models/" ≡ "x"
unfolding remove_prefix
remove_prefix_run = refl

ends_with_run : ends_with "x:free" ":free" ≡ true
unfolding ends_with
ends_with_run = refl
