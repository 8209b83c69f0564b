-- ===== src/Tests/Reformats.antt =====
-- A log of twenty lines, fifteen of one shape; the similarity threshold is 40 per cent.
use headroom_go.Common.{◌≡◌, ◌⊎◌, refl, [], ◌∷◌, Bytes, codes, text_eq}
use headroom_go.Common.Lines.{split_lines, join}
use headroom_go.Common.Space.{fields}
use headroom_go.Ccr.Marker.{decimal}
use headroom_go.Transform.{ok, ReformatOutput}
use headroom_go.Reformats.{split_lines_rust}
use headroom_go.Reformats.LogTemplate.{log_template}
use headroom_go.Reformats.LogTemplate.Blocks.{Packed, log_template-Reads}
use headroom_go.Tests.Fixtures.{percent}

abbrev job_log : Bytes
job_log =
    codes
      "job 1 is done\njob 2 is done\njob 3 is done\njob 4 is done\njob 5 is done\njob 6 is done\njob 7 is done\njob 8 is done\njob 9 is done\njob 10 is done\njob 11 is done\njob 12 is done\njob 13 is done\njob 14 is done\njob 15 is done\n\n  stop here\none two three\none two four\nx"

abbrev packed_log : ReformatOutput
packed_log = record {
  output =
      codes
        "[Template T1: job <*> is done] (15 occurrences)\n1\n2\n3\n4\n5\n6\n7\n8\n9\n10\n11\n12\n13\n14\n15\n\n  stop here\none two three\none two four\nx";
  bytes_saved = 132;
}

job_log-packs : log_template percent 40 job_log ≡ ok packed_log
unfolding log_template split_lines_rust split_lines text_eq join fields decimal
job_log-packs = refl

lone_cr : split_lines_rust (codes "a\r\n\nb\r") ≡ codes "a" ∷ [] ∷ codes "b" ∷ []
unfolding split_lines_rust split_lines
lone_cr = refl

log_template-Reads_example :
    ((packed_log.output ≡ job_log) × (packed_log.bytes_saved ≡ 0)) ⊎ Packed job_log packed_log
log_template-Reads_example = log_template-Reads percent 40 job_log packed_log job_log-packs
