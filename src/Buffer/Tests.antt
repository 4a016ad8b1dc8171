-- ===== src/Buffer/Tests.antt =====
-- Tests of pcc_gateway/buffer.py, and the theorems at concrete inputs.
use pcc_gateway.Prelude.{refl, true, false, [], codes, arith}
use pcc_gateway.Buffer.View.{Heap}
use pcc_gateway.Buffer.Channel.{ChannelBuffer}
use pcc_gateway.Buffer.Append.{Appended, append_lem}

abbrev void : Heap
void = record {
  next = 0;
  cell = λ owner. record {
    capacity = 0;
    bytes = [];
    start = 0;
    end = 0;
    references = 0;
    released = true;
  };
}

abbrev small : ChannelBuffer
small = record {
  segment_size = 2;
  low_watermark = 1;
  high_watermark = 3;
  max_bytes = 8;
  views = [];
  head = 0;
  head_offset = 0;
  queued_bytes = 0;
  backpressured = false;
  closed = false;
}

append_lem_example : Appended (codes "abcde") small void
append_lem_example = append_lem (codes "abcde") small void refl (omega arith) (omega arith)
