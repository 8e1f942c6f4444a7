-- ===== src/Server/Metrics/Examples.antt =====
-- A consuming stream that reads two messages, sends one and ends with the end of the client's stream.
use arke.Common.{none, some, [], ◌∷◌, List, ◌≡◌, refl}
use arke.Server.Metrics.Defs.{Metric, Call, stream_interceptor, method_name}
use arke.Server.Metrics.Counted.{Counts, stream_interceptor-Counts, calls_with, number}

abbrev consuming : List Call
consuming = Call.recv none ∷ Call.recv none ∷ Call.send none ∷ Call.recv (some "EOF") ∷ []

stream_interceptor-Counts_example :
    Counts
      (method_name "/arke.Consumer/Consume")
      []
      (stream_interceptor "/arke.Consumer/Consume" consuming none []).1
      consuming
      none
      "error"
stream_interceptor-Counts_example =
    stream_interceptor-Counts "/arke.Consumer/Consume" consuming none "error" []

-- The end of the client's stream is counted as an error.
end_counted : calls_with Metric.recv_msg "error" consuming ≡ 1
unfolding calls_with number
end_counted = refl
