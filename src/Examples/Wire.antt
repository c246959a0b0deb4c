-- ===== src/Examples/Wire.antt =====
-- Words of the protocol at concrete values.
use file_sync_tool.Base.{arith}
use file_sync_tool.Base.Int.{pos, negsuc}
use file_sync_tool.Wire.{encode_int, encode_off}
use file_sync_tool.Reads.{Reads}
use file_sync_tool.Server.Tasks.{receive_int, receive_off}
use file_sync_tool.Server.Tasks.RoundTrip.{Reads-receive_words}

Reads-receive_words_example :
    Reads receive_int (encode_int (negsuc 4)) (negsuc 4)
    × Reads receive_off (encode_off (pos 5000000000)) (pos 5000000000)
Reads-receive_words_example =
    Reads-receive_words (negsuc 4) (pos 5000000000) (omega arith) (omega arith)
