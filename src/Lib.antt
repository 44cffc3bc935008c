-- ===== src/Lib.antt =====
-- The browser code of GokapiPlus, a file-sharing server: what the pages do with files, names,
-- requests and connections before the server sees them. The server (Go) is the other end of
-- `fetch` and of the upload requests, and a parameter of every definition that waits for it.
--
-- Base passes on the library's names and holds what the parts share: Boolean tests (Base/Tests),
-- lists (Base/Lists), JavaScript strings as lists of code points (Base/Text), decimal numerals
-- (Base/Decimal), integers (Base/Int), split and join (Base/Split) and trim (Base/Spaces), all over
-- the native numbers.
--
-- Zip is internal/webserver/web/static/js/admin_ui_zip.js, the archive that a drop of several files
-- becomes. Zip/Names models zipTrimGoSpace, zipLimitUtf8Bytes, zipSanitiseFilename,
-- zipArchiveStem and zipResolveArchiveName under the same names; Zip/Walk models the walk over
-- dropped folders (zipWalkEntry, zipCollectItems), where an entry carries what its reader will
-- deliver; Zip/Items models the items, zipDeduplicateNames and zipGetTotalSize; Zip/Drop models
-- zipOnDrop and zipOnFileInputChange, up to what they hand to zipCollectItems; Zip/Dialog models
-- zipAskArchiveName and zipAndUpload, where zipCreateArchive is a parameter. The search for a free
-- counter runs on fuel, one more than the number of used paths, which is enough, as every round but
-- the last meets another used path.
--
-- SseWorker is internal/webserver/web/static/js/sse-worker.js, the worker that shares one event
-- connection among all tabs. A state is a record of the worker's three variables and of the
-- connections that are open; an event of the browser is a constructor of `Event`, `handle` is the
-- worker's answer, and `Reach` holds of the states that any order of events leads to.
--
-- Upload is internal/webserver/web/static/js/public_upload.js, the page of a file request.
-- Upload/Retry models withRetry; its calls, the clock and the abort signal are the record `Calls`,
-- and its fuel, fourteen more than the number of retries, is enough for a clock that runs on.
-- Upload/Chunks models the loop that slices one file, on fuel that its length bounds; Upload/Queue
-- models startUpload over the list of entries, the click that removes an entry, and the button.
-- Upload/Slots follows the slots that the server reserves, from the choice of a file in
-- createUploadBox to the handler of unload, over any order of events.
--
-- Api is internal/webserver/web/static/js/admin_api.js: the store of tokens with getToken, the
-- three steps of every API function, how each reads the response (Api/Read), and all functions
-- as request builders (Api/Endpoints, Api/Users, Api/Files; Api/Table joins them). The reply to the
-- n-th request is a parameter, and so is Base64.encode.
--
-- Permissions is changeUserPermission of internal/webserver/web/static/js/admin_ui_users.js for one
-- user: the buttons, the calls under way and the server's permissions, with presses and returns in
-- any order. The calls of itself run on two levels: a button that was
-- pressed ignores the next press, and only two buttons press each other.
--
-- Sizes holds the formatting of sizes: getReadableSize and its variants
-- (internal/webserver/web/static/js/all_public.js), formatSize (public_upload.js), zipFormatSize
-- (admin_ui_zip.js) and formatStatBytes (admin_ui_stats.js, all in that directory), with exact
-- tenths in place of floating point; the loop of formatStatBytes has the number itself as fuel.
--
-- Stats is internal/webserver/web/static/js/admin_ui_stats.js: the badge of a file
-- (getFileStatus, updateRowStatus) and the loop of refreshAdminStats. A row is what its attributes
-- read as, and a write to a cell of the table, which the page's observer would see, is counted.
--
-- E2e is internal/webserver/web/static/js/end2end_admin.js, the encrypted upload. E2e/Chunks models
-- uploadChunk on fuel that is the chunk count, which it reaches exactly, and the form of postChunk;
-- E2e/Session models getE2EInfo, storeE2EInfo and requestFileInfo (admin_ui_upload.js) as the list
-- of what they do, with every answer of the server and of the Go module as a field of `Answers`.
-- E2e/Decrypt models decryptFileEntries, on rows that are read as the code reads them; E2e/Link is
-- internal/webserver/web/static/js/end2end_download.js, the key in a link.
--
-- FileRequests is internal/webserver/web/static/js/admin_ui_filerequest.js: the download button of
-- a request (Download, where the attribute onclick is taken as what the two patterns make of it),
-- the dialog with what it remembers (Form, where a number and its decimal text are one, and the
-- browser's time zone is an argument), and the rows of the table (Rows).
--
-- Logs is internal/webserver/web/static/js/admin_ui_logs.js: the log that the page puts together
-- from its calls and filters (Viewer), and the duration of the server's run (Duration).
--
-- AdminUpload is internal/webserver/web/static/js/admin_ui_upload.js: the table of files of one tab
-- with the messages that SseWorker relays from the others (Table) and the events of the server
-- (Events), a row with the buttons of createButtonGroup (Row), the settings for new files (Form),
-- the dialog for a file (Edit) and the boxes of the uploads under way (Status).
--
-- ApiKeys is internal/webserver/web/static/js/admin_ui_api.js: the permission button of a key with
-- its calls under way, the field for its name, and the row that addRowApi makes (Row).
--
-- Dom stands for the page where the code builds elements: an element with its id, class, attributes,
-- handler and children, what getElementById finds (Dom/Find), the marking of an element that is
-- looked up (Dom/Mark), and tables whose rows make their ids of fixed prefixes and an id of their
-- own (Dom/Ids, Dom/Tables). AdminUpload, Users and ApiKeys fill in their rows.
--
-- Users is the rest of internal/webserver/web/static/js/admin_ui_users.js: the permissions as bits
-- (Bits), the row that addRowUser makes (Row), and what the dialogs do with the server's answers
-- (Actions).
--
-- Not modelled: what is drawn apart from the rows (texts, colours, progress bars, toasts), the page
-- for branding, the encryption in WebAssembly, and third-party
-- code (JSZip, StreamSaver, Bootstrap).
pub mod Base
pub mod Zip
pub mod SseWorker
pub mod Upload
pub mod Api
pub mod Permissions
pub mod Sizes
pub mod Stats
pub mod E2e
pub mod FileRequests
pub mod Logs
pub mod AdminUpload
pub mod ApiKeys
pub mod Dom
pub mod Users
