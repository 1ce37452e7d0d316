-- ===== src/Tests/Page.antt =====
-- Boxes and charts of the page, and the theorems on them at concrete inputs.
use runboard_lcp.Base.{
  ℕ, String, false, ◌≡◌, refl, none, some, List, [], ◌∷◌, ◌==◌, length, is_space, is_line_break,
  strip, if◌then◌else◌,
}
use runboard_lcp.Base.Lines.{all_lines}
use runboard_lcp.Base.Try.{Try, ok, raised, type_error, os_error}
use runboard_lcp.Exporter.{Gauge, exposition, all_gauge_lines}
use runboard_lcp.Exporter.Scraped.{all_printable}
use runboard_lcp.Json.{Json, null, str, obj, field, end}
use runboard_lcp.Live.Boxes.{box_block}
use runboard_lcp.Live.Boxes.Shows.{silent, printed, AllAnswers, AllShow, box_block-AllShow}
use runboard_lcp.Live.Doc.{job_block}
use runboard_lcp.Live.Sparks.{Spark, KeptSparks, draw_sparks, cached_sparks}
use runboard_lcp.Live.Sparks.Whole.{AllKept, Good, cached_sparks-Served}
use runboard_lcp.Live.Spec.{Window, window_spec, window_named, boxes_spec, default_boxes, sparks}
use runboard_lcp.Metrics.Grid.{Point}
use runboard_lcp.Tests.Metrics.{naturals}
use runboard_lcp.Tests.Throughput.{plain}

abbrev warm : List Gauge
warm =
    record {
      name = "zgx_gpu_temperature_celsius";
      value = some "61";
      labels = [];
      help = "GPU temperature";
    }
    ∷ record { name = "zgx_serving_up"; value = some "1"; labels = []; help = "" }
    ∷ []

-- The head answers, and the worker does not.
abbrev fetch : String → Try String
fetch url =
    if url == "http://127.0.0.1:9400/metrics"
    then ok (exposition warm)
    else raised (os_error "down")

boxes_answer : AllAnswers naturals plain fetch default_boxes
unfolding AllAnswers all_printable all_lines all_gauge_lines is_line_break is_space
boxes_answer = (printed warm refl refl, (silent (os_error "down"), tt))

box_block-AllShow_example :
    AllShow naturals plain fetch default_boxes (box_block naturals plain fetch none default_boxes).0
box_block-AllShow_example = box_block-AllShow naturals plain fetch default_boxes boxes_answer

falls_back : window_spec {F = ℕ} (some (str "7d")) ≡ window_named "30m" 1800
unfolding window_spec
falls_back = refl

six_hours : (window_spec {F = ℕ} (some (str "6h"))).step ≡ 120
unfolding window_spec
six_hours = refl

skips_malformed : length (boxes_spec (some "a|A|10.0.0.1|http://a|head;b|B")) ≡ 1
unfolding boxes_spec strip
skips_malformed = refl

no_engine :
    job_block {F = ℕ} (
      some (
        obj (
          field "state"
            (str "done")
            (field "job" (obj (field "job_id" (str "a1") (field "engine" (str "exl3") end))) end))))
    ≡ field "state"
        (str "done")
        (field "active" (Json.bool false) (field "job_id" (str "a1") (field "preset" null end)))
unfolding job_block
no_engine = refl

abbrev half_hour : Window
half_hour = record { name = "30m"; seconds = 1800; step = 60 }

-- The second query fails.
abbrev half_asking : ℕ → ℕ → String → Try (List (Point ℕ))
half_asking seconds step metric =
    if metric == "zgx_gpu_utilization_percent"
    then ok (record { t = 1000; v = 90 } ∷ [])
    else raised type_error

abbrev old_chart : List (Spark naturals)
old_chart = record { key = "gpu_util"; points = record { t = 900; v = 80 } ∷ [] } ∷ []

abbrev memory : List (KeptSparks naturals)
memory = record { window = "30m"; at = 900; sparks = old_chart } ∷ []

-- The series of the half hour is the last that was drawn whole.
abbrev IsLast : String → List (Spark naturals) → Type 0
IsLast name ss = ss ≡ old_chart

cached_sparks-Served_example :
    Good naturals IsLast "30m" (cached_sparks naturals half_asking sparks half_hour 1000 memory).0
    × AllKept naturals IsLast (cached_sparks naturals half_asking sparks half_hour 1000 memory).1
unfolding AllKept draw_sparks
cached_sparks-Served_example =
    cached_sparks-Served naturals IsLast half_asking sparks half_hour 1000 memory (refl, tt)
      (λ ss h. cc)
