-- ===== src/Lib.antt =====
-- sqlx-mssql-rs is a SQLx driver for Microsoft SQL Server. It rewrites the `?` markers of a
-- statement into the names that sp_executesql wants, keeps the transactions of a connection, and
-- writes the T-SQL of migrations. The TDS protocol is spoken by the mssql-tds crate, which is not
-- part of the repository.
--
-- Prelude holds what the other files share: Boolean tests and lists over the native numbers, text as
-- a list of character codes, decimal numbers, and readers of text for specifications.
-- ParamMarkers is sqlx-mssql-rs-core/src/param_markers.rs. The `String` that grows and the index into
-- the statement are the fields of Scanner; `rewrite_param_markers` runs its loop with as much fuel as
-- the statement has characters, which is enough since each round takes at least one.
-- Migrate is sqlx-mssql-rs-core/src/migrate.rs: each statement that it sends is a function to Text of
-- the name of the method, with `_sql` behind it where the text is built inside the method.
-- Error is sqlx-mssql-rs-core/src/error.rs.
-- Tds is what the driver uses of mssql-tds: the answers of a client that may depend on all the calls
-- made before. Connection is sqlx-mssql-rs-core/src/connection.rs, with `&mut self` as a state that
-- is passed on and `Result` as an outcome. What SQL Server does with the transaction calls is a
-- record of laws, Connection.Server.SqlServer: a batch has run with the end of its results, a failed
-- commit leaves all of the transaction's work or none, and any other failed transaction call leaves the
-- transaction or takes all of it away. A result that is still being read in a transaction is left out
-- of the laws. Connection.Statements has the methods that run a
-- statement; their loop over the server's results runs on fuel, and the theorems ask that the server
-- ends its results within it. Connection.Queries has those that read rows, with a fuel above the
-- number of rows. Migrate.Run has the methods of `Migrate`.
--
-- TypeInfo is sqlx-mssql-rs-core/src/type_info.rs. TypeInfo.DataType has the enum of mssql-tds, as far
-- as the driver names it; its numbers are a parameter. TypeInfo.Parse is `from_system_type_name`, where
-- a slice that panics in Rust is a value of its own.
-- Options is sqlx-mssql-rs-core/src/options.rs, with Options.Url its `from_str`, on what the url crate
-- makes of the text.
-- Rows is row.rs, column.rs, query_result.rs and the column lookup of statement.rs, and Request is
-- `build_request` of connection.rs, all in sqlx-mssql-rs-core/src.
-- Times is the time of day in types/mod.rs, types/jiff.rs and types/time.rs of
-- sqlx-mssql-rs-core/src; the two crates' `Time` is a parameter, and so is the width of the integers
-- that its parts pass through.
-- Spatial is sqlx-mssql-rs-core/src/types/geo.rs: Spatial.Reader has the reader as a state that is
-- passed on and what `decode` reads of a payload, Spatial.Decode the rest of `decode`, Spatial.Encode
-- `encode`, whose three vectors are the fields of Tables, and Spatial.Columns the two wrappers. What
-- is called of geo-types is the record GeoTypes. `build_shape` runs on as much fuel as there are
-- shapes and one more, which is enough since no shape is its own ancestor below the top. Spatial.Layout
-- has the geometry as a tree whose preorder is the table of shapes; Spatial.Split, Spatial.Members,
-- Spatial.Figures, Spatial.Rings, Spatial.Children, Spatial.Placed and Spatial.Rebuild take the tables
-- apart along it. Spatial.Answers and Spatial.Reads have what the reader gives of any bytes,
-- Spatial.Cuts what it gives of a prefix.
-- Values is sqlx-mssql-rs-core/src/value.rs and Arguments is sqlx-mssql-rs-core/src/arguments.rs. The
-- structures of mssql-tds are a type that both take, and a float is its bit pattern. Any is
-- sqlx-mssql-rs-core/src/any.rs: what the `Any` driver is told of types, columns, rows and results.
--
-- Not modelled: the futures (a method is what it does when it is awaited to its end), log output, the
-- bound of `usize` outside the reader of spatial payloads, the memory that a payload reserves, the
-- depth of the stack, the network, the arithmetic of floats, the WKB and serde forms of geometries,
-- the conversions of dates, and the methods of the `Any` driver that pass a call on to the connection.
pub mod Any
pub mod Arguments
pub mod Connection
pub mod Error
pub mod Migrate
pub mod Options
pub mod ParamMarkers
pub mod Prelude
pub mod Request
pub mod Rows
pub mod Spatial
pub mod Tds
pub mod Tests
pub mod Times
pub mod TypeInfo
pub mod Values
