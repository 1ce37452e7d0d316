-- ===== src/Tests/Scrape.antt =====
-- Scrapes to print and read back, and the theorem on them at a concrete input.
use runboard_lcp.Base.{◌≡◌, refl, none, some, List, [], ◌∷◌, is_space, is_line_break}
use runboard_lcp.Base.Assoc.{find_key}
use runboard_lcp.Base.Lines.{all_lines}
use runboard_lcp.Exporter.{Gauge, exposition, all_gauge_lines}
use runboard_lcp.Exporter.Scraped.{parse_prom_text-exposition, last_value, all_printable}
use runboard_lcp.Live.PromText.{parse_prom_text}
use runboard_lcp.Base.{parse_nat}
use runboard_lcp.Tests.Metrics.{naturals}

abbrev scraped : List Gauge
scraped =
    record {
      name = "zgx_serving_up";
      value = some "1";
      labels = [];
      help = "1 if the endpoint answers";
    }
    ∷ record { name = "zgx_gpu_power_watts"; value = none; labels = []; help = "power draw" }
    ∷ record {
      name = "zgx_load_phase_requests";
      value = some "7";
      labels = ("phase", "c4 warm") ∷ ("concurrency", "4") ∷ [];
      help = "";
    }
    ∷ record { name = "zgx_load_requests_total"; value = some "7"; labels = []; help = "" }
    ∷ []

printed :
    exposition scraped
    ≡ "# HELP zgx_serving_up 1 if the endpoint answers\n# TYPE zgx_serving_up gauge\nzgx_serving_up 1\nzgx_load_phase_requests{phase=\"c4 warm\",concurrency=\"4\"} 7\nzgx_load_requests_total 7\n"
unfolding exposition
printed = refl

parse_prom_text-exposition_example :
    find_key "zgx_load_requests_total" (parse_prom_text naturals (exposition scraped)).plain
    ≡ some 7
unfolding last_value parse_nat all_printable all_lines all_gauge_lines is_line_break is_space
parse_prom_text-exposition_example =
    parse_prom_text-exposition naturals "zgx_load_requests_total" scraped refl refl
