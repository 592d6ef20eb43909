-- ===== src/Bufio2/Reading.antt =====
-- That the buffered reader delivers what its connection delivers, whatever parts it arrives in: the laws
-- of the interface Source.
use ipfs_nosql_frame.Prelude.{ℕ, ◌<◌}
use ipfs_nosql_frame.Credis.Source.{Source}
use ipfs_nosql_frame.Bufio2.Conn.{Inbound}
use ipfs_nosql_frame.Bufio2.Reader
use ipfs_nosql_frame.Bufio2.Reader.{Slice, found, full, failed, index_byte, if_failed, if_empty}
use ipfs_nosql_frame.Bufio2.Holding.{Holds, read_byte-Holds, peek_byte-Holds}
use ipfs_nosql_frame.Bufio2.Blocks.{read_full-Holds}
use ipfs_nosql_frame.Bufio2.Lines.{read_slice-Holds, read_bytes-Holds}

module _ (I : Inbound) (size limit : ℕ) (room : 0 < size) where
  -- The buffered reader as the codec uses it.
  abbrev pub source : Source
  source = record {
    Reader = Reader.Reader I size;
    size = size;
    read_byte = Reader.read_byte I size;
    peek_byte = Reader.peek_byte I size;
    read_slice = Reader.read_slice I size;
    read_bytes = Reader.read_bytes I size limit;
    read_full = Reader.read_full I size;
    Holds = Holds I size limit room;
    read_byte_holds = read_byte-Holds I size limit room;
    peek_byte_holds = peek_byte-Holds I size limit room;
    read_slice_holds = read_slice-Holds I size limit room;
    read_bytes_holds = read_bytes-Holds I size limit room;
    read_full_holds = read_full-Holds I size limit room;
  }
