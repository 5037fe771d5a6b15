-- ===== src/Lib.antt =====
-- The browser code of the blog in note/linux/kubeblog: the scripts under
-- note/linux/kubeblog/Final/src/main/resources/static/lib that its pages load.
--
-- Parts. templates/blog.html draws a QR code of the page's address with qrcode/qrcode.js, and
-- loads waypoints/jquery.waypoints.js for the events of its scroll position;
-- templates/admin/blogs-input.html edits a post with editormd/editormd.js.
--
-- Qr models qrcode/qrcode.js. A text is the list of its UTF-16 units. QRCode.makeCode asks
-- _getTypeNumber for a type number (TypeNumber), makes a QR8bitByte of the text (EightBitByte) and
-- has QRCodeModel.createData write it to a QRBitBuffer (CreateData, BitBuffer), whose capacity the
-- block table gives (RsBlock); MakeCode composes these. What the code throws is a value of
-- Result.Error. Bit operations are those of the native numbers; `>>>` cuts to 32 bits.
-- Field has QRMath's tables and its glog and gexp, Polynomial has QRPolynomial and
-- getErrorCorrectPolynomial, and CreateBytes has createBytes; `none` in an array is `undefined`.
-- Bch has the words of the format and the version. Modules has the square of modules, a function of
-- row and column, and the function patterns, MapData has getMask and mapData, LostPoint has
-- getLostPoint, whose points are exact, times the square of the number of modules, and MakeImpl has
-- makeImpl, getBestMaskPattern and make. Loops from a negative index count one or two higher.
-- The loops on fuel are align (8 rounds: at most 7 bits are missing), pad (one round more than
-- the capacity has bits; a round adds 8 or 16), mod (a call takes at least one coefficient away),
-- the loops of gexp (n / 255 rounds, one more from below 0), those of getBCHDigit and the BCH words
-- (32 rounds, one for each bit), and those of mapData (a round for each row, and for each column).
-- `none` stands for fuel that ran out in align, pad and mod; the others leave what they have then.
-- The comparison of a text with a number in _getUTF8Length is the parameter `reads_as`.
--
-- Waypoints models waypoints/jquery.waypoints.js as one explicit world (State): the tables of
-- waypoints, groups and contexts, by index, the handlers called so far, and the frames that
-- requestAnimationFrame has been given. Group has the queues and flushTriggers, Context has
-- handleScroll, Refresh has Context.refresh, and Lifecycle the constructors, destroy, disable,
-- enable, the throttled handlers and the frames, of which the oldest runs first. Positions are whole
-- pixels (ℤ); what jQuery answers is the record Page; a handler is an Event and changes no waypoint.
-- The options are those that the constructor's checks let through.
--
-- Editor models editormd/editormd.js. Toolbar has the handlers of editormd.toolbarHandlers and
-- editormd.keyMaps that edit the text; CodeMirror, a library, is the parameter CodeMirror, and
-- IsEditor is what its manual says of the calls. Texts are UTF-16 units, lines end in 10. The digits
-- of a number n, which the language writes, take n + 1 rounds of fuel, which is enough.
-- Editor.Layout is an explicit state of what the editor shows, with jQuery's measures as the record
-- Screen, the timeouts that wait (the oldest fires first), and marked and filterHTMLTags as
-- parameters. The variable `timer`, which all editors of a page share, is a field of it: the page has
-- one editor. Whether setToolbar has set `this.toolbar` is the setting `toolbar_set`; a method of it
-- where it is undefined throws a TypeError, which sets the field `failed`, and the rest of the call
-- is not run. showToolbar and hideToolbar, which change settings.toolbar, are not modelled.
-- Editor.Loading is the order in which loadQueues loads scripts.
-- Editor.Toc is the loop of markdownToCRenderer, Editor.Date is dateFormat, and
-- Editor.Plugins.Table is what the enter button of editormd/plugins/table-dialog puts in.
--
-- Not modelled: the DOM (the drawing of a QR code), editormd's other plugins, the minified
-- scripts, and the libraries that editormd itself vendors.
pub mod Base
pub mod Qr
pub mod Waypoints
pub mod Editor
